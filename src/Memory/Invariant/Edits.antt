-- ===== src/Memory/Invariant/Edits.antt =====
-- The edits of the live jobs that the methods make, and what they keep of the invariant.
use worklane.Base.{
  ℕ, zero, suc, ◌≡◌, refl, sym, ap, ◌∙◌, false, Option, none, some, List, [], ◌∷◌, ◌++◌,
  if◌then◌else◌, any, map, set, erase_idx, get_elem?, arith, Bool-cases, inl, inr, map-set_same,
  map-erase_idx, get_elem?-map,
}
use mathlib.Core.List.{map-append}
use worklane.Base.Text.{Text, text_Eq, text_eq, text_eq_iff}
use worklane.Base.Keyed.{
  Keys, Distinct, Fresh, contains, Distinct-append, Distinct-erase_idx, contains-erase_idx_self,
}
use worklane.Base.Assoc.{lookup, lookup-insert, lookup-remove}
use worklane.Core.Envelope.{JobId}
use worklane.Memory.State.{StoredJob, has_id, claim, holder}
use worklane.Memory.Dead.{release}
use worklane.Memory.Ops.{release_lapsed, has_lapsed, unlease}
use worklane.Memory.Invariant.{
  IsIndexed, IsPaired, AllPaired, id_of, key_of, receipt_of, owner, owner-none,
  contains_of_owner-none, owner-append, owner-append_other, owner-set, owner-erase_idx_other,
}

AllPaired-append :
    (js : List StoredJob) (j : StoredJob) → AllPaired js → IsPaired j → AllPaired (js ++ j ∷ [])
AllPaired-append [] j h p = (p, tt)
AllPaired-append (i ∷ js) j h p = (h.0, AllPaired-append js j h.1 p)

AllPaired-set :
    (js : List StoredJob) (i : ℕ) (v : StoredJob)
    → AllPaired js
    → IsPaired v
    → AllPaired (set js i v)
AllPaired-set [] i v h p = tt
AllPaired-set (x ∷ js) zero v h p = (p, h.1)
AllPaired-set (x ∷ js) (suc i) v h p = (h.0, AllPaired-set js i v h.1 p)

AllPaired-erase_idx : (js : List StoredJob) (i : ℕ) → AllPaired js → AllPaired (erase_idx js i)
AllPaired-erase_idx [] i h = tt
AllPaired-erase_idx (x ∷ js) zero h = h.1
AllPaired-erase_idx (x ∷ js) (suc i) h = (h.0, AllPaired-erase_idx js i h.1)

fresh_id :
    (id : JobId) (js : List StoredJob)
    → any (has_id id) js ≡ false
    → contains id (map id_of js) ≡ false
fresh_id id [] h = refl
fresh_id id (j ∷ js) h = ground (arith, fresh_id id js)

module _ {js : List StoredJob} {m : List (Text × JobId)} (v : IsIndexed js m) where
  -- A job is overwritten by one with the same id and key.
  pub set-IsIndexed :
      (i : ℕ) (j w : StoredJob)
      → get_elem? js i ≡ some j
      → w.unique_key ≡ j.unique_key
      → w.envelope.id ≡ j.envelope.id
      → Distinct (map receipt_of (set js i w))
      → IsPaired w
      → IsIndexed (set js i w) m
  set-IsIndexed i j w h k e r p = record {
    ids = rw (map-set_same id_of js i w j h (ap some e)) v.ids;
    keys = rw (map-set_same key_of js i w j h k) v.keys;
    receipts = r;
    paired = AllPaired-set js i w v.paired p;
    index = λ q. v.index q ∙ sym (owner-set q js i w j h k e);
  }

  index-erase :
      (i : ℕ) (j : StoredJob) (o : Option Text) (q : Text)
      → get_elem? js i ≡ some j
      → j.unique_key ≡ o
      → lookup q (release o m) ≡ owner q (erase_idx js i)
  unfolding release
  index-erase i j none q h e = v.index q ∙ sym (owner-erase_idx_other q js i j h (ground arith))
  index-erase i j (some k) q h e = elim (Bool-cases (text_eq k q)) [
    | inl same ↦
        let gone : contains k (erase_idx (map key_of js) i) ≡ false =
          contains-erase_idx_self (map key_of js) i k v.keys
            (get_elem?-map key_of js i j h ∙ ap some e) in
        rw (lookup-remove k q m, same)
          (sym (
            owner-none q (erase_idx js i)
              (rw (map-erase_idx key_of js i, ← (text_eq_iff k q).0 same) gone)))
    | inr other ↦
        rw (lookup-remove k q m, other)
          (v.index q ∙ sym (owner-erase_idx_other q js i j h (ground arith)))
  ]

  index-append :
      (j : StoredJob) (o : Option Text) (q : Text)
      → j.unique_key ≡ o
      → holder o m ≡ none
      → lookup q (claim o j.envelope.id m) ≡ owner q (js ++ j ∷ [])
  unfolding claim holder
  index-append j none q e f = v.index q ∙ sym (owner-append_other q js j (ground arith))
  index-append j (some k) q e f = elim (Bool-cases (text_eq k q)) [
    | inl same ↦
        rw (lookup-insert k q j.envelope.id m)
          (ground (arith, owner-append q js j, v.index q, text_eq_iff k q))
    | inr other ↦
        rw (lookup-insert k q j.envelope.id m)
          (ground (arith, owner-append_other q js j, v.index q))
  ]

  keys-append : (o : Option Text) → holder o m ≡ none → Fresh o (map key_of js)
  unfolding holder
  keys-append none f = tt
  keys-append (some k) f = contains_of_owner-none k js (sym (v.index k) ∙ f)

  -- A job is removed, and its key released.
  pub erase-IsIndexed :
      (i : ℕ) (j : StoredJob)
      → get_elem? js i ≡ some j
      → IsIndexed (erase_idx js i) (release j.unique_key m)
  erase-IsIndexed i j h = record {
    ids = rw (map-erase_idx id_of js i) (Distinct-erase_idx (map id_of js) i v.ids);
    keys = rw (map-erase_idx key_of js i) (Distinct-erase_idx (map key_of js) i v.keys);
    receipts =
        rw (map-erase_idx receipt_of js i) (Distinct-erase_idx (map receipt_of js) i v.receipts);
    paired = AllPaired-erase_idx js i v.paired;
    index = λ q. index-erase i j j.unique_key q h refl;
  }

  -- A job comes in: its id is new, and nobody holds its key.
  pub append-IsIndexed :
      (j : StoredJob)
      → any (has_id j.envelope.id) js ≡ false
      → holder j.unique_key m ≡ none
      → j.receipt ≡ none
      → j.leased_until ≡ none
      → IsIndexed (js ++ j ∷ []) (claim j.unique_key j.envelope.id m)
  append-IsIndexed j new free r l = record {
    ids =
        rw map-append
          (Distinct-append (map id_of js) (id_of j) v.ids (fresh_id j.envelope.id js new));
    keys =
        rw map-append
          (Distinct-append (map key_of js) (key_of j) v.keys (keys-append j.unique_key free));
    receipts =
        rw map-append (Distinct-append (map receipt_of js) (receipt_of j) v.receipts (rw r tt));
    paired = AllPaired-append js j v.paired ((λ _. l), (λ _. r));
    index = λ q. index-append j j.unique_key q refl free;
  }

pub contains_lapsed :
    (now : ℕ) (k : Text) (js : List StoredJob)
    → contains k (map receipt_of js) ≡ false
    → contains k (map receipt_of (release_lapsed now js)) ≡ false
unfolding release_lapsed unlease
contains_lapsed now k [] h = refl
contains_lapsed now k (j ∷ js) h = ground (arith, contains_lapsed now k js)

Fresh-lapsed :
    (now : ℕ) (o : Option Text) (js : List StoredJob)
    → Fresh o (map receipt_of js)
    → Fresh o (map receipt_of (release_lapsed now js))
Fresh-lapsed now none js f = tt
Fresh-lapsed now (some k) js f = contains_lapsed now k js f

Fresh-unleased :
    (now : ℕ) (j : StoredJob) (ks : Keys)
    → Fresh (receipt_of j) ks
    → Fresh (receipt_of (if has_lapsed now j then unlease j else j)) ks
unfolding unlease
Fresh-unleased now j ks f = elim (Bool-cases (has_lapsed now j)) [
  | inl e ↦ rw e tt
  | inr e ↦ rw e f
]

-- Releasing the leases that have run out.
module _ (now : ℕ) where
  lapsed-receipts :
      (js : List StoredJob)
      → Distinct (map receipt_of js)
      → Distinct (map receipt_of (release_lapsed now js))
  unfolding release_lapsed
  lapsed-receipts [] d = tt
  lapsed-receipts (j ∷ js) d =
      (Fresh-unleased now j _ (Fresh-lapsed now j.receipt js d.0), lapsed-receipts js d.1)

  lapsed-paired : (js : List StoredJob) → AllPaired js → AllPaired (release_lapsed now js)
  unfolding release_lapsed unlease
  lapsed-paired [] d = tt
  lapsed-paired (j ∷ js) d = (ground arith, lapsed-paired js d.1)

  owner-lapsed : (q : Text) (js : List StoredJob) → owner q (release_lapsed now js) ≡ owner q js
  unfolding release_lapsed unlease owner
  owner-lapsed q [] = refl
  owner-lapsed q (j ∷ js) = ground (arith, owner-lapsed q js)

  ids-lapsed : (js : List StoredJob) → map id_of (release_lapsed now js) ≡ map id_of js
  unfolding release_lapsed unlease
  ids-lapsed [] = refl
  ids-lapsed (j ∷ js) = ground (arith, ids-lapsed js)

  keys-lapsed : (js : List StoredJob) → map key_of (release_lapsed now js) ≡ map key_of js
  unfolding release_lapsed unlease
  keys-lapsed [] = refl
  keys-lapsed (j ∷ js) = ground (arith, keys-lapsed js)

  pub lapsed-IsIndexed :
      {js : List StoredJob} {m : List (Text × JobId)}
      → IsIndexed js m
      → IsIndexed (release_lapsed now js) m
  lapsed-IsIndexed {js} v = record {
    ids = rw (ids-lapsed js) v.ids;
    keys = rw (keys-lapsed js) v.keys;
    receipts = lapsed-receipts js v.receipts;
    paired = lapsed-paired js v.paired;
    index = λ q. v.index q ∙ sym (owner-lapsed q js);
  }
