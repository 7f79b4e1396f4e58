-- ===== src/Server/Upload/Admitted.antt =====
-- What holds when `fp_handle_expert_compress` of src/server.c makes jobs.
use ferretptimize.Common.{ℕ, ◌<◌, ◌≡◌, refl, Option, none, some, List, length}
use mathlib.Core.Path.{subst}
use ferretptimize.Common.Bytes.{Bytes}
use ferretptimize.Auth.Token.{User}
use ferretptimize.Auth.Keys.{KeyTable}
use ferretptimize.Server.Options.{ExpertOptions}
use ferretptimize.Server.Multipart.{FormPart, parse_multipart}
use ferretptimize.Server.Usage.{
  Entry, track, allowed as within_quota, server_busy, job_limit, byte_limit, Verdict as Quota,
}
use ferretptimize.Server.Access.{
  Accounts, Config, Source, Verdict, allowed, inactive, refused, is_expert_authorized,
}
use ferretptimize.Server.Access.Entitled.{Grounds, is_expert_authorized-Grounds}
use ferretptimize.Server.Upload.{
  Outcome, answer, go_on, Plan, Form, charged_user, max_parts, parse_boundary, plan_upload,
  read_form, charge_user, begin_expert, handle_expert, malformed_body, no_boundary, over_quota,
}
use ferretptimize.Server.Upload.Files.{file_parts, IsPlan, plan_upload-IsPlan}

-- The files come from the parts of the body.
pub record IsRead (form : Form) (plan : Plan) : Type 0 where
  pub boundary : Bytes
  pub parts : List FormPart
  pub boundary_of : parse_boundary 128 form.content_type ≡ some boundary
  pub parts_of : parse_multipart form.body boundary max_parts ≡ some parts
  pub files : IsPlan plan (file_parts parts)
  pub some_file : 0 < length (file_parts parts)

-- The request may use expert mode, its files are within the limits, and its user is charged for them.
pub record IsAdmitted {Db : Type 0} (table : KeyTable Db) (config : Config)
    (accounts : Option (Accounts Db)) (usage : List Entry) (today : ℕ) (form : Form) (plan : Plan)
    (user : Option User) (usage' : List Entry) : Type 0 where
  pub source : Source
  pub grounds : Grounds table config accounts form.credentials source user
  pub read : IsRead form plan
  pub charged :
      track usage (charged_user user) today (length plan.files) plan.total_bytes
      ≡ (within_quota, usage')

module _ (parse_metadata : FormPart → ExpertOptions → ExpertOptions) (form : Form) where
  Reads : Outcome Plan → Type 0
  Reads (answer r) = Unit {0}
  Reads (go_on plan) = IsRead form plan

  read_form-Reads : Reads (read_form parse_metadata form)
  unfolding read_form Reads
  read_form-Reads = by_boundary (parse_boundary 128 form.content_type) refl
    where
      planned :
          (boundary : Bytes) (parts : List FormPart)
          → parse_boundary 128 form.content_type ≡ some boundary
          → parse_multipart form.body boundary max_parts ≡ some parts
          → (o : Outcome Plan) → plan_upload parse_metadata parts ≡ o
          → Reads o
      planned boundary parts e f (answer r) g = tt
      planned boundary parts e f (go_on plan) g =
          let (files, some_file) = plan_upload-IsPlan parse_metadata parts plan g in
          record {
            boundary = boundary;
            parts = parts;
            boundary_of = e;
            parts_of = f;
            files = files;
            some_file = some_file;
          }

      by_parts :
          (boundary : Bytes)
          → parse_boundary 128 form.content_type ≡ some boundary
          → (o : Option (List FormPart)) → parse_multipart form.body boundary max_parts ≡ o
          → Reads (elim o [
            | none ↦ answer malformed_body
            | some parts ↦ plan_upload parse_metadata parts
          ])
      by_parts boundary e none f = tt
      by_parts boundary e (some parts) f =
          planned boundary parts e f (plan_upload parse_metadata parts) refl

      by_boundary :
          (o : Option Bytes)
          → parse_boundary 128 form.content_type ≡ o
          → Reads (elim o [
            | none ↦ answer no_boundary
            | some boundary ↦ elim (parse_multipart form.body boundary max_parts) [
              | none ↦ answer malformed_body
              | some parts ↦ plan_upload parse_metadata parts
            ]
          ])
      by_boundary none e = tt
      by_boundary (some boundary) e =
          by_parts boundary e (parse_multipart form.body boundary max_parts) refl

  module _ {Db : Type 0} (table : KeyTable Db) (config : Config) (accounts : Option (Accounts Db))
      (usage : List Entry) (today : ℕ) where
    Admits : Outcome (Plan × Option User) × List Entry → Type 0
    Admits (answer r, usage') = Unit {0}
    Admits (go_on (plan, user), usage') =
        IsAdmitted table config accounts usage today form plan user usage'

    charged-Admits :
        (source : Source) (user : Option User)
        → Grounds table config accounts form.credentials source user
        → (o : Outcome Plan) → Reads o
        → Admits (charge_user usage today user o)
    unfolding charge_user Admits Reads
    charged-Admits source user g (answer r) h = tt
    charged-Admits source user g (go_on plan) h =
        go (track usage (charged_user user) today (length plan.files) plan.total_bytes) refl
      where
        go :
            (t : Quota × List Entry)
            → track usage (charged_user user) today (length plan.files) plan.total_bytes ≡ t
            → Admits (
              elim t.0 [
                | within_quota ↦ go_on (plan, user)
                | server_busy ↦ answer over_quota
                | job_limit ↦ answer over_quota
                | byte_limit ↦ answer over_quota
              ],
              t.1,
            )
        go (within_quota, usage') e = record { source = source; grounds = g; read = h; charged = e }
        go (server_busy, usage') e = tt
        go (job_limit, usage') e = tt
        go (byte_limit, usage') e = tt

    begun-Admits :
        (v : Verdict)
        → is_expert_authorized table config accounts form.credentials ≡ v
        → Admits (begin_expert parse_metadata usage today form v)
    unfolding begin_expert Admits
    begun-Admits (allowed source user) e =
        charged-Admits source user
          (is_expert_authorized-Grounds table config accounts form.credentials source user e)
          (read_form parse_metadata form) read_form-Reads
    begun-Admits inactive e = tt
    begun-Admits refused e = tt

    -- Jobs are made only for a request that has grounds to use expert mode, whose files are within the
    -- limits of the mode, and whose user's quota of the day is charged for exactly these files.
    pub handle_expert-IsAdmitted :
        (plan : Plan) (user : Option User) (usage' : List Entry)
        → handle_expert parse_metadata table config accounts usage today form
          ≡ (go_on (plan, user), usage')
        → IsAdmitted table config accounts usage today form plan user usage'
    unfolding handle_expert Admits
    handle_expert-IsAdmitted plan user usage' e =
        subst Admits e
          (begun-Admits (is_expert_authorized table config accounts form.credentials) refl)
