-- ===== src/Progress/Lifetime.antt =====
-- How long a channel of src/progress.c lives: until as many releases as its register and retains.
use ferretptimize.Common.{
  ℕ, zero, suc, ◌≡◌, refl, ap, List, [], ◌∷◌, ◌++◌, Option, none, some, length, get_elem?, set,
  arith,
}
use ferretptimize.Common.Int.{pos, ◌+ℤ◌}
use ferretptimize.Progress.{Channel, Registry, lookup, forget, retain, release, update}
use ferretptimize.Progress.Probing.{Entries, LacksJob}

-- Forgetting the job undoes its entry.
pub forget-set :
    (entries : Entries) (idx job_id address : ℕ)
    → LacksJob job_id entries
    → get_elem? entries idx ≡ some none
    → forget (set entries idx (some (job_id, address))) job_id ≡ entries
unfolding forget
forget-set [] idx job_id address l e = refl
forget-set (none ∷ entries) zero job_id address l e = ground arith
forget-set (some held ∷ entries) zero job_id address l e = absurd (ground (arith, e))
forget-set (none ∷ entries) (suc idx) job_id address l e =
    ap (◌∷◌ none) (forget-set entries idx job_id address l e)
forget-set (some held ∷ entries) (suc idx) job_id address l e =
    ground (arith, l.0, forget-set entries idx job_id address l.1 e)

abbrev pub Heap : Type 0
Heap = List (Option Channel)

pub lookup_last : (h : Heap) (o : Option Channel) → lookup (h ++ (o ∷ [])) (length h) ≡ o
lookup_last [] o = refl
lookup_last (x ∷ h) o = lookup_last h o

set-last : (h : Heap) (o v : Option Channel) → set (h ++ (o ∷ [])) (length h) v ≡ h ++ (v ∷ [])
set-last [] o v = refl
set-last (x ∷ h) o v = ap (◌∷◌ x) (set-last h o v)

-- A registry whose last block is the channel.
abbrev pub with_last : Heap → Entries → Option Channel → Registry
with_last h entries o = record { heap = h ++ (o ∷ []); entries = entries }

module _ (h : Heap) (entries : Entries) (c : Channel) where
  pub lookup-last : lookup (with_last h entries (some c)).heap (length h) ≡ some c
  lookup-last = lookup_last h (some c)

  pub update-last :
      (f : Channel → Channel)
      → update (with_last h entries (some c)) (length h) f ≡ some (with_last h entries (some (f c)))
  unfolding update
  update-last f = rw (lookup_last h (some c)) (rw (set-last h (some c) (some (f c))) refl)

  pub retain-last :
      retain (with_last h entries (some c)) (length h)
      ≡ some (with_last h entries (some (record c { ref_count = c.ref_count +ℤ pos 1 })))
  unfolding retain
  retain-last =
      rw (lookup_last h (some c))
        (rw (set-last h (some c) (some (record c { ref_count = c.ref_count +ℤ pos 1 }))) refl)

  pub release-two :
      release (with_last h entries (some (record c { ref_count = pos 2 }))) (length h)
      ≡ some (with_last h entries (some (record c { ref_count = pos 1 })))
  unfolding release
  release-two = rw (lookup_last h (some (record c { ref_count = pos 2 }))) (
      rw
        (set-last h (some (record c { ref_count = pos 2 })) (some (record c { ref_count = pos 1 })))
        refl)

  pub release-one :
      release (with_last h entries (some (record c { ref_count = pos 1 }))) (length h)
      ≡ some (with_last h (forget entries c.job_id) none)
  unfolding release
  release-one =
      rw (lookup_last h (some (record c { ref_count = pos 1 })))
        (rw (set-last h (some (record c { ref_count = pos 1 })) none) refl)
