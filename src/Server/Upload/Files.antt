-- ===== src/Server/Upload/Files.antt =====
-- The files that src/server.c accepts in a request: which parts they are, and their limits.
use ferretptimize.Common.{
  ℕ, suc, ◌+◌, ◌%◌, ◌^◌, ◌≤◌, ◌<◌, ◌≡◌, ◌∙◌, refl, ap, sym, List, [], ◌∷◌, ◌++◌, append_assoc,
  append-nil, map, length, length-append, All, All-append, sum, sum-append, leb, ltb, ◌==◌,
  if-cases, arith,
}
use mathlib.Core.Path.{subst}
use ferretptimize.Server.Options.{ExpertOptions}
use ferretptimize.Server.Multipart.{FormPart}
use ferretptimize.Server.Upload.{
  max_files, max_file, max_total, Outcome, answer, go_on, then_do, Upload, Plan, empty_plan,
  with_file, add_file, upload_name, Role, options_of, common_options, file, ignored, role_of,
  add_part, add_parts, plan_upload, set_opts,
}

-- The parts that are files, in order.
unfoldable pub keep_file : Role → FormPart → List FormPart → List FormPart
keep_file file part rest = part ∷ rest
keep_file _ part rest = rest

unfoldable pub file_parts : List FormPart → List FormPart
file_parts [] = []
file_parts (part ∷ parts) = keep_file (role_of part.name) part (file_parts parts)

abbrev pub FitsSize : FormPart → Type 0
FitsSize part = (0 < part.size) × (part.size ≤ max_file)

abbrev pub size_of : FormPart → ℕ
size_of part = part.size

abbrev pub parts_of : Plan → List FormPart
parts_of plan = map (λ (u : Upload). u.part) plan.files

-- The limits on a list of files.
pub record WithinLimits (files : List FormPart) : Type 0 where
  pub few : length files ≤ max_files
  pub sizes : All FitsSize files
  pub small : sum size_of files ≤ max_total

-- What the loop has of the files `files`.
pub record IsPlan (plan : Plan) (files : List FormPart) : Type 0 where
  pub same : parts_of plan ≡ files
  pub total : plan.total_bytes ≡ sum size_of files
  pub limits : WithinLimits files

abbrev pub Holds : (Plan → Type 0) → Outcome Plan → Type 0
Holds P (answer r) = Unit {0}
Holds P (go_on plan) = P plan

Holds-then_do :
    (P Q : Plan → Type 0) (o : Outcome Plan) (f : Plan → Outcome Plan)
    → Holds P o
    → ((plan : Plan) → P plan → Holds Q (f plan))
    → Holds Q (then_do o f)
Holds-then_do P Q (answer r) f h g = tt
Holds-then_do P Q (go_on plan) f h g = g plan h

map-append :
    (xs ys : List Upload)
    → map (λ (u : Upload). u.part) (xs ++ ys)
      ≡ map (λ (u : Upload). u.part) xs ++ map (λ (u : Upload). u.part) ys
map-append [] ys = refl
map-append (x ∷ xs) ys = ap (◌∷◌ x.part) (map-append xs ys)

pub length-map : (xs : List Upload) → length (map (λ (u : Upload). u.part) xs) ≡ length xs
length-map [] = refl
length-map (x ∷ xs) = ap suc (length-map xs)

-- A plan with one file more.
added-IsPlan :
    (plan : Plan) (files : List FormPart) (part : FormPart)
    → IsPlan plan files
    → length plan.files < max_files
    → FitsSize part
    → plan.total_bytes + part.size ≤ max_total
    → IsPlan (with_file plan part) (files ++ (part ∷ []))
added-IsPlan plan files part p few fits small =
    let new : Upload = record { part = part; filename = upload_name (length plan.files) part } in
    let count : length plan.files ≡ length files = sym (length-map plan.files) ∙ ap length p.same in
    let size : sum size_of (files ++ (part ∷ [])) ≡ sum size_of files + (part.size + 0) =
      sum-append size_of files (part ∷ []) in
    record {
      same = map-append plan.files (new ∷ []) ∙ ap (λ (l : List FormPart). l ++ (part ∷ [])) p.same;
      total = omega (arith, size, p.total, small);
      limits = record {
        few = omega (arith, length-append files (part ∷ []), count, few);
        sizes = All-append FitsSize files (part ∷ []) p.limits.sizes (fits, tt);
        small = omega (arith, size, p.total, small);
      };
    }

add_file-IsPlan :
    (plan : Plan) (files : List FormPart) (part : FormPart)
    → IsPlan plan files
    → Holds (λ next. IsPlan next (files ++ (part ∷ []))) (add_file plan part)
unfolding add_file
add_file-IsPlan plan files part p =
    let Q = Holds (λ next. IsPlan next (files ++ (part ∷ []))) in
    if-cases Q (leb max_files (length plan.files)) _ _ (λ e. tt)
      (λ few.
        if-cases Q (part.size == 0) _ _ (λ e. tt)
          (λ some_bytes.
            if-cases Q (ltb max_file part.size) _ _ (λ e. tt)
              (λ fits.
                if-cases Q (ltb max_total ((plan.total_bytes + part.size) % 2 ^ 64)) _ _ (λ e. tt)
                  (λ small.
                    added-IsPlan plan files part p (ground (arith, few))
                      (ground (arith, some_bytes), ground (arith, fits))
                      (ground (arith, small, fits, p.total, p.limits.small))))))

-- A part that is no file leaves the files alone.
unchanged-IsPlan :
    (plan next : Plan) (files : List FormPart)
    → IsPlan plan files
    → next.files ≡ plan.files
    → next.total_bytes ≡ plan.total_bytes
    → IsPlan next (files ++ [])
unchanged-IsPlan plan next files p same_files same_total =
    subst (IsPlan next) (sym (append-nil files)) (record {
      same = ap (map (λ (u : Upload). u.part)) same_files ∙ p.same;
      total = same_total ∙ p.total;
      limits = p.limits;
    })

pub keep_file-append :
    (role : Role) (part : FormPart) (rest : List FormPart)
    → keep_file role part [] ++ rest ≡ keep_file role part rest
unfolding keep_file
keep_file-append file part rest = refl
keep_file-append (options_of index) part rest = refl
keep_file-append common_options part rest = refl
keep_file-append ignored part rest = refl

pub empty-IsPlan : IsPlan empty_plan []
empty-IsPlan = record {
  same = refl;
  total = refl;
  limits = record { few = omega arith; sizes = tt; small = omega arith };
}

module _ (parse_metadata : FormPart → ExpertOptions → ExpertOptions) where
  pub add_part-IsPlan :
      (role : Role) (plan : Plan) (files : List FormPart) (part : FormPart)
      → IsPlan plan files
      → Holds
          (λ next. IsPlan next (files ++ keep_file role part []))
          (add_part parse_metadata role plan part)
  unfolding add_part keep_file
  add_part-IsPlan file plan files part p = add_file-IsPlan plan files part p
  add_part-IsPlan (options_of index) plan files part p =
      unchanged-IsPlan plan
        (record plan { file_opts = set_opts plan.file_opts index (parse_metadata part plan.opts) })
        files p refl refl
  add_part-IsPlan common_options plan files part p =
      unchanged-IsPlan plan (record plan { opts = parse_metadata part plan.opts }) files p refl refl
  add_part-IsPlan ignored plan files part p = unchanged-IsPlan plan plan files p refl refl

  pub add_parts-IsPlan :
      (parts : List FormPart) (plan : Plan) (files : List FormPart)
      → IsPlan plan files
      → Holds
          (λ next. IsPlan next (files ++ file_parts parts))
          (add_parts parse_metadata plan parts)
  unfolding add_parts file_parts
  add_parts-IsPlan [] plan files p = unchanged-IsPlan plan plan files p refl refl
  add_parts-IsPlan (part ∷ parts) plan files p =
      let role = role_of part.name in
      let regroup =
        append_assoc files (keep_file role part []) (file_parts parts)
        ∙ ap (λ (l : List FormPart). files ++ l) (keep_file-append role part (file_parts parts)) in
      Holds-then_do (λ next. IsPlan next (files ++ keep_file role part []))
        (λ next. IsPlan next (files ++ keep_file role part (file_parts parts)))
        (add_part parse_metadata role plan part) (λ next. add_parts parse_metadata next parts)
        (add_part-IsPlan role plan files part p)
        (λ next h.
          subst
            (λ (l : List FormPart).
              Holds (λ last. IsPlan last l) (add_parts parse_metadata next parts))
            regroup (add_parts-IsPlan parts next (files ++ keep_file role part []) h))

  -- What is accepted: the file parts of the request in order, at most 10, none empty or larger than 20
  -- MB, 100 MB at most together, which is the total that the quota is charged; and at least one.
  pub plan_upload-IsPlan :
      (parts : List FormPart) (plan : Plan)
      → plan_upload parse_metadata parts ≡ go_on plan
      → IsPlan plan (file_parts parts) × (0 < length (file_parts parts))
  unfolding plan_upload
  plan_upload-IsPlan parts plan e =
      subst (Holds (λ next. IsPlan next (file_parts parts) × (0 < length (file_parts parts)))) e (
        Holds-then_do (λ next. IsPlan next (file_parts parts))
          (λ next. IsPlan next (file_parts parts) × (0 < length (file_parts parts)))
          (add_parts parse_metadata empty_plan parts) _
          (add_parts-IsPlan parts empty_plan [] empty-IsPlan)
          (λ next p.
            let count : length next.files ≡ length (file_parts parts) =
              sym (length-map next.files) ∙ ap length p.same in
            if-cases
              (Holds (λ last. IsPlan last (file_parts parts) × (0 < length (file_parts parts))))
              (length next.files == 0) _ _ (λ empty. tt)
              (λ some_file. (p, ground (arith, count, some_file)))))
