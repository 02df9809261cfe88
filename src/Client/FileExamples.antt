-- ===== src/Client/FileExamples.antt =====
-- A store on files over a world that keeps the last file written, and the theorems of the claim check
-- at it. Every name of one character is an id.
use worklane.Base.{◌≡◌, refl, true, Bool, none, [], ◌∷◌, length, nat_eq}
use worklane.Base.Text.{codes}
use worklane.Core.Error.{ok}
use worklane.Core.Envelope.{JobId, Bytes}
use worklane.Core.ClaimCheck.{is_utf8, make_reference, reference_key}
use worklane.Client.Files.{done, FileSystem, file_store, offload, fetch}
use worklane.Client.Contained.{
  all_inside, offloads, fetches, drops, check_of, use_all, use_all-all_inside, fetch-offload,
}

abbrev fs : FileSystem Bytes
fs = record {
  create_dir_all = λ dir w. (w, done tt);
  write = λ path bytes w. (bytes, done tt);
  read = λ path w. (w, done w);
  remove_file = λ path w. ([], done tt);
}

abbrev is_id : Bytes → Bool
is_id key = nat_eq (length key) 1

abbrev fresh_id : Bytes → Bytes × JobId
fresh_id w = (w, codes "k")

-- `..`, as a forged reference.
abbrev forged : Bytes
forged = make_reference (codes "..")

use_all-all_inside_example :
    all_inside is_id
      (codes "/blobs")
      (use_all fs is_id fresh_id
        (codes "/blobs")
        3
        (offloads (1 ∷ 2 ∷ 3 ∷ 4 ∷ []) ∷ fetches forged ∷ drops forged ∷ [])
        (record { world = []; calls = [] })).calls
    ≡ true
use_all-all_inside_example =
    use_all-all_inside fs is_id fresh_id (codes "/blobs") 3
      (offloads (1 ∷ 2 ∷ 3 ∷ 4 ∷ []) ∷ fetches forged ∷ drops forged ∷ []) []

abbrev letter : Bytes
letter = 1 ∷ 2 ∷ 3 ∷ 4 ∷ []

plain : reference_key letter ≡ none
unfolding reference_key
plain = refl

key-text : is_utf8 (codes "k") ≡ true
unfolding is_utf8
key-text = refl

offloaded :
    (offload
      (check_of fs is_id fresh_id (codes "/blobs") 3)
      letter
      (record { world = []; calls = [] })).1
    ≡ ok (make_reference (codes "k"))
unfolding offload file_store
offloaded = refl

fetch-offload_example :
    let c = check_of fs is_id fresh_id (codes "/blobs") 3 in
    (fetch c
      (make_reference (codes "k"))
      (offload c letter (record { world = []; calls = [] })).0).1
    ≡ ok letter
fetch-offload_example =
    fetch-offload fs is_id fresh_id (codes "/blobs") 3 letter (make_reference (codes "k"))
      (record { world = []; calls = [] }) plain (λ w. key-text) (λ path bytes w t h. refl) offloaded
