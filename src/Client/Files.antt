-- ===== src/Client/Files.antt =====
-- crates/worklane/src/claim_check.rs: the payload store on files, and the claim check over a store.
-- The file system is a parameter, and so is which keys parse as ids. A path is the directory of the
-- store and the name of a file in it; the paths that are touched are logged.
use worklane.Base.{ℕ, Bool, Option, none, some, ◌++◌, leb, length, if◌then◌else◌}
use worklane.Base.Text.{Text, codes, debug}
use worklane.Base.Logged.{Logged, perform, quietly}
use worklane.Core.Error.{Result, ok, err, broker, handler}
use worklane.Core.Envelope.{JobId, Bytes}
use worklane.Core.Traits.{Answer, PayloadStore}
use worklane.Core.ClaimCheck.{make_reference, reference_key}
use worklane.Client.State.{default_offload_threshold}

abbrev pub FilePath : Type 0
FilePath = Text × Bytes

-- What a call of the file system comes to, on the pool of blocking threads.
pub data Io (A : Type 0) : Type 0 where
  done : A → Io A
  not_found : Text → Io A
  io_error : Text → Io A
  join_error : Text → Io A

pub record FileSystem (W : Type 0) : Type 0 where
  pub create_dir_all : Text → W → W × Io (Unit {0})
  pub write : FilePath → Bytes → W → W × Io (Unit {0})
  pub read : FilePath → W → W × Io Bytes
  pub remove_file : FilePath → W → W × Io (Unit {0})

abbrev pub failure : {A : Type 0} → Text → Text → Result A
failure what e = err (broker (codes "payload store " ++ (what ++ (codes ": " ++ e))))

unfoldable pub written : Bytes → Io (Unit {0}) → Result Bytes
written key (done _) = ok key
written key (not_found e) = failure (codes "write") e
written key (io_error e) = failure (codes "write") e
written key (join_error e) = failure (codes "join") e

unfoldable pub read_answer : Io Bytes → Result (Option Bytes)
read_answer (done bytes) = ok (some bytes)
read_answer (not_found e) = ok none
read_answer (io_error e) = failure (codes "read") e
read_answer (join_error e) = failure (codes "join") e

unfoldable pub removed : Io (Unit {0}) → Answer
removed (done _) = ok tt
removed (not_found e) = ok tt
removed (io_error e) = failure (codes "delete") e
removed (join_error e) = failure (codes "join") e

module _ {W : Type 0} (fs : FileSystem W) (is_id : Bytes → Bool) (fresh_id : W → W × JobId) where
  -- `open`: the directory, created if it is not there.
  unfoldable pub open_store : Text → W → W × Result Text
  open_store dir w =
      let (w1, made) = fs.create_dir_all dir w in
      (
        w1,
        elim made [
          | done _ ↦ ok dir
          | not_found e ↦ failure (codes "dir " ++ debug dir) e
          | io_error e ↦ failure (codes "dir " ++ debug dir) e
          | join_error e ↦ failure (codes "dir " ++ debug dir) e
        ],
      )

  module _ (dir : Text) where
    unfoldable pub safe_path : Bytes → Result FilePath
    safe_path key =
        if is_id key
        then ok (dir, key)
        else err (
            broker (
              codes "claim-check key "
              ++ (debug key
                  ++ codes
                      " is not a valid store key (expected a UUID); refusing to map it to a filesystem path")))

    unfoldable pub put : Bytes → Logged FilePath W → Logged FilePath W × Result Bytes
    unfolding quietly perform safe_path written
    put payload s =
        let (s1, key) = quietly fresh_id s in
        elim (safe_path key) [
          | err e ↦ (s1, err e)
          | ok path ↦
              let (s2, answer) = perform (λ _. path) (fs.write path payload) s1 in
              (s2, written key answer)
        ]

    unfoldable pub get : Bytes → Logged FilePath W → Logged FilePath W × Result (Option Bytes)
    unfolding perform safe_path read_answer
    get key s = elim (safe_path key) [
      | err e ↦ (s, err e)
      | ok path ↦
          let (s1, answer) = perform (λ _. path) (fs.read path) s in (s1, read_answer answer)
    ]

    unfoldable pub delete : Bytes → Logged FilePath W → Logged FilePath W × Answer
    unfolding perform safe_path removed
    delete key s = elim (safe_path key) [
      | err e ↦ (s, err e)
      | ok path ↦
          let (s1, answer) = perform (λ _. path) (fs.remove_file path) s in (s1, removed answer)
    ]

    unfoldable pub file_store : PayloadStore (Logged FilePath W)
    unfolding put get delete
    file_store = record { put = put; get = get; delete = delete }

pub record ClaimCheck (W : Type 0) : Type 0 where
  pub store : PayloadStore W
  pub threshold : ℕ

module _ {W : Type 0} where
  unfoldable pub claim_check : PayloadStore W → ClaimCheck W
  claim_check store = record { store = store; threshold = default_offload_threshold }

  unfoldable pub with_threshold : ℕ → ClaimCheck W → ClaimCheck W
  with_threshold threshold c = record c { threshold = threshold }

  unfoldable pub offload : ClaimCheck W → Bytes → W → W × Result Bytes
  offload c payload w =
      if leb (length payload) c.threshold
      then (w, ok payload)
      else (let (w1, answer) = c.store.put payload w in
          (w1, elim answer [ ok key ↦ ok (make_reference key) | err e ↦ err e ]))

  unfoldable pub fetch : ClaimCheck W → Bytes → W → W × Result Bytes
  fetch c payload w = elim (reference_key payload) [
    | none ↦ (w, ok payload)
    | some key ↦
        let (w1, answer) = c.store.get key w in
        (
          w1,
          elim answer [
            | ok (some bytes) ↦ ok bytes
            | ok none ↦ err (
                handler
                  (codes "claim-check payload " ++ (key ++ codes " is missing from the store")))
            | err e ↦ err e
          ],
        )
  ]

  unfoldable pub drop : ClaimCheck W → Bytes → W → W × Answer
  drop c payload w = elim (reference_key payload) [
    | none ↦ (w, ok tt)
    | some key ↦ c.store.delete key w
  ]
