-- ===== src/Memory/Invariant.antt =====
-- What holds of the in-memory broker between two calls.
pub mod Edits
pub mod Methods
pub mod Runs
use worklane.Base.{
  ℕ, zero, suc, ◌+◌, ◌≤◌, ◌<◌, ◌≡◌, refl, sym, ap, ◌∙◌, Bool, true, false, ◌&&◌, ◌||◌, Option, none,
  some, List, [], ◌∷◌, ◌++◌, ◌↔◌, ltb, leb, ◌==◌, if◌then◌else◌, any, length, map, position, set,
  erase_idx, get_elem?, arith, Option-cases, Bool-cases, ◌⊎◌, inl, inr, map-set_same, map-erase_idx,
  get_elem?-map, ==_iff,
}
use worklane.Base.Text.{Text, text_Eq, option_eq, text_eq, text_eq_iff}
use worklane.Base.Keyed.{Keys, Distinct, Fresh, contains}
use worklane.Base.Assoc.{lookup, insert, remove, lookup-insert, lookup-remove}
use worklane.Core.Envelope.{JobId}
use worklane.Memory.State.{StoredJob, Inner}

abbrev pub key_of : StoredJob → Option Text
key_of j = j.unique_key

abbrev pub id_of : StoredJob → Option Text
id_of j = some j.envelope.id

abbrev pub receipt_of : StoredJob → Option Text
receipt_of j = j.receipt

-- The id of the live job that holds a key.
unfoldable pub owner : Text → List StoredJob → Option JobId
owner k [] = none
owner k (j ∷ js) = if option_eq j.unique_key (some k) then some j.envelope.id else owner k js

-- A job has a receipt exactly while it has a lease.
abbrev pub IsPaired : StoredJob → Type 0
IsPaired j = (j.receipt ≡ none) ↔ (j.leased_until ≡ none)

abbrev pub AllPaired : List StoredJob → Type 0
AllPaired [] = Unit
AllPaired (j ∷ js) = IsPaired j × AllPaired js

-- No two live jobs share an id, a unique key or a receipt, and the table of unique keys is exactly
-- the index of the live jobs by the keys that they hold.
pub record IsIndexed (jobs : List StoredJob) (unique : List (Text × JobId)) : Type 0 where
  pub ids : Distinct (map id_of jobs)
  pub keys : Distinct (map key_of jobs)
  pub receipts : Distinct (map receipt_of jobs)
  pub paired : AllPaired jobs
  pub index : (k : Text) → lookup k unique ≡ owner k jobs

abbrev pub Inv : Inner → Type 0
Inv s = IsIndexed s.jobs s.unique

pub owner-none :
    (k : Text) (js : List StoredJob) → contains k (map key_of js) ≡ false → owner k js ≡ none
unfolding owner
owner-none k [] h = refl
owner-none k (j ∷ js) h = ground (arith, owner-none k js)

pub contains_of_owner-none :
    (k : Text) (js : List StoredJob) → owner k js ≡ none → contains k (map key_of js) ≡ false
unfolding owner
contains_of_owner-none k [] h = refl
contains_of_owner-none k (j ∷ js) h = ground (arith, contains_of_owner-none k js)

pub owner-append :
    (k : Text) (js : List StoredJob) (j : StoredJob)
    → owner k js ≡ none
    → owner k (js ++ j ∷ [])
      ≡ (if option_eq j.unique_key (some k) then some j.envelope.id else none)
unfolding owner
owner-append k [] j h = refl
owner-append k (i ∷ js) j h = ground (arith, owner-append k js j)

pub owner-append_other :
    (k : Text) (js : List StoredJob) (j : StoredJob)
    → option_eq j.unique_key (some k) ≡ false
    → owner k (js ++ j ∷ []) ≡ owner k js
unfolding owner
owner-append_other k [] j h = ground arith
owner-append_other k (i ∷ js) j h = ground (arith, owner-append_other k js j)

pub owner-set :
    (k : Text) (js : List StoredJob) (i : ℕ) (v j : StoredJob)
    → get_elem? js i ≡ some j
    → v.unique_key ≡ j.unique_key
    → v.envelope.id ≡ j.envelope.id
    → owner k (set js i v) ≡ owner k js
unfolding owner
owner-set k [] i v j h e f = refl
owner-set k (x ∷ js) zero v j h e f = ground arith
owner-set k (x ∷ js) (suc i) v j h e f = ground (arith, owner-set k js i v j)

pub owner-erase_idx_other :
    (k : Text) (js : List StoredJob) (i : ℕ) (j : StoredJob)
    → get_elem? js i ≡ some j
    → option_eq j.unique_key (some k) ≡ false
    → owner k (erase_idx js i) ≡ owner k js
unfolding owner
owner-erase_idx_other k [] i j h e = refl
owner-erase_idx_other k (x ∷ js) zero j h e = ground arith
owner-erase_idx_other k (x ∷ js) (suc i) j h e = ground (arith, owner-erase_idx_other k js i j)
