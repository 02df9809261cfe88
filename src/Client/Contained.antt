-- ===== src/Client/Contained.antt =====
-- The files that a claim check touches, and the payloads that it gives back.
use worklane.Base.{
  ℕ, ◌≡◌, refl, Bool, true, ◌&&◌, none, List, [], ◌∷◌, ◌==◌, ==_refl, ◌⊎◌, leb, length, arith,
  Bool-cases, inl, inr,
}
use worklane.Base.Text.{Text, text_Eq}
use worklane.Base.Logged.{Logged, perform, quietly}
use worklane.Core.Error.{Error, ok, err}
use worklane.Core.Envelope.{JobId, Bytes}
use worklane.Core.ClaimCheck.{is_utf8, reference_key}
use worklane.Client.Offload.{reference_key-make}
use worklane.Client.Files.{
  FilePath, Io, done, FileSystem, safe_path, put, get, delete, file_store, ClaimCheck, offload,
  fetch, drop, written, read_answer,
}

-- Is every path in the directory, with an id for a name?
unfoldable pub all_inside : (Bytes → Bool) → Text → List FilePath → Bool
all_inside is_id dir [] = true
all_inside is_id dir (path ∷ paths) = (path.0 == dir) && is_id path.1 && all_inside is_id dir paths

pub data Use : Type 0 where
  offloads fetches drops : Bytes → Use

io_cases :
    (io : Io (Unit {0}))
    → ((t : Unit {0}) × (io ≡ done t)) ⊎ ((key : Bytes) → (e : Error) × (written key io ≡ err e))
unfolding written
io_cases (done t) = inl (t, refl)
io_cases (Io.not_found e) = inr (λ key. (_, refl))
io_cases (Io.io_error e) = inr (λ key. (_, refl))
io_cases (Io.join_error e) = inr (λ key. (_, refl))

module _ {W : Type 0} (fs : FileSystem W) (is_id : Bytes → Bool) (fresh_id : W → W × JobId)
    (dir : Text) (threshold : ℕ) where
  abbrev pub check_of : ClaimCheck (Logged FilePath W)
  check_of = record { store = file_store fs is_id fresh_id dir; threshold = threshold }

  -- Uses of one claim check, one after the other.
  unfoldable pub use_all : List Use → Logged FilePath W → Logged FilePath W
  unfolding offload fetch drop
  use_all [] s = s
  use_all (offloads payload ∷ uses) s = use_all uses (offload check_of payload s).0
  use_all (fetches payload ∷ uses) s = use_all uses (fetch check_of payload s).0
  use_all (drops payload ∷ uses) s = use_all uses (drop check_of payload s).0

  offload-inside :
      (payload : Bytes) (s : Logged FilePath W)
      → all_inside is_id dir s.calls ≡ true
      → all_inside is_id dir (offload check_of payload s).0.calls ≡ true
  unfolding offload file_store put quietly perform safe_path all_inside
  offload-inside payload s h = ground (arith, ==_refl dir)

  fetch-inside :
      (payload : Bytes) (s : Logged FilePath W)
      → all_inside is_id dir s.calls ≡ true
      → all_inside is_id dir (fetch check_of payload s).0.calls ≡ true
  unfolding fetch file_store get perform safe_path all_inside
  fetch-inside payload s h = ground (arith, ==_refl dir)

  drop-inside :
      (payload : Bytes) (s : Logged FilePath W)
      → all_inside is_id dir s.calls ≡ true
      → all_inside is_id dir (drop check_of payload s).0.calls ≡ true
  unfolding drop file_store delete perform safe_path all_inside
  drop-inside payload s h = ground (arith, ==_refl dir)

  -- Whatever payloads a claim check over the store on files is used on, forged references too, every
  -- path that it touches is in the directory of the store, with the name of an id.
  pub use_all-all_inside :
      (uses : List Use) (w : W)
      → all_inside is_id dir (use_all uses (record { world = w; calls = [] })).calls ≡ true
  unfolding all_inside use_all
  use_all-all_inside uses w = go uses (record { world = w; calls = [] }) refl
    where
      go :
          (uses : List Use) (s : Logged FilePath W)
          → all_inside is_id dir s.calls ≡ true
          → all_inside is_id dir (use_all uses s).calls ≡ true
      go [] s h = h
      go (offloads payload ∷ uses) s h =
          go uses (offload check_of payload s).0 (offload-inside payload s h)
      go (fetches payload ∷ uses) s h =
          go uses (fetch check_of payload s).0 (fetch-inside payload s h)
      go (drops payload ∷ uses) s h = go uses (drop check_of payload s).0 (drop-inside payload s h)

  -- What is offloaded is fetched again: a payload that is no reference itself, over a file system
  -- that reads what was just written, and with ids that are well-formed text.
  pub fetch-offload :
      (payload form : Bytes) (s : Logged FilePath W)
      → reference_key payload ≡ none
      → ((w : W) → is_utf8 (fresh_id w).1 ≡ true)
      → ((path : FilePath) (bytes : Bytes) (w : W) (t : Unit {0})
          → (fs.write path bytes w).1 ≡ done t
          → (fs.read path (fs.write path bytes w).0).1 ≡ done bytes)
      → (offload check_of payload s).1 ≡ ok form
      → (fetch check_of form (offload check_of payload s).0).1 ≡ ok payload
  unfolding offload fetch file_store put get quietly perform safe_path written read_answer
  fetch-offload payload form s plain text reads h =
      elim (Bool-cases (leb (length payload) threshold)) [
        | inl small ↦ ground (arith, plain)
        | inr large ↦
            let drawn = fresh_id s.world in
            let path : FilePath = (dir, drawn.1) in
            let wrote = fs.write path payload drawn.0 in
            elim (Bool-cases (is_id drawn.1)) [
              | inr forged ↦ absurd (ground arith)
              | inl ours ↦ elim (io_cases wrote.1) [
                | inr lost ↦ absurd (ground (arith, (lost drawn.1).1))
                | inl (t, kept) ↦ ground (
                  arith,
                  reference_key-make drawn.1 (text s.world),
                  reads path payload drawn.0 t kept,
                )
              ]
            ]
      ]
