-- ===== src/Objects/Examples.antt =====
-- The object store of crates/kanbei-objects/src/lib.rs at inputs that meet the hypotheses of its laws.
-- The hash of the examples gives 1 to the text that is installed, and 0 to any other.
use kanbei.Base.{ℕ, ◌≡◌, [], ◌∷◌, arith, ◌==◌, if◌then◌else◌}
use kanbei.Base.Map.{lookup}
use kanbei.Objects.{Bytes, ObjectStore, get, install, ok}
use kanbei.Objects.Laws.{IsVerified, get-install}

toy_hash : Bytes → ℕ
toy_hash [] = 0
toy_hash (b ∷ []) = if b == 7 then 1 else 0
toy_hash (b ∷ c ∷ bs) = 0

abbrev empty_store : ObjectStore
empty_store = record { objects = []; quarantine = []; queue = []; installs = 0; dirsyncs = 0 }

abbrev seven : Bytes
seven = 7 ∷ []

toy_hash-seven : (x : Bytes) → toy_hash x ≡ toy_hash seven → x ≡ seven
unfolding toy_hash
toy_hash-seven [] h = ground arith
toy_hash-seven (b ∷ []) h = ground arith
toy_hash-seven (b ∷ c ∷ bs) h = ground arith

empty-IsVerified : IsVerified toy_hash empty_store
unfolding lookup
empty-IsVerified = record { at = λ d b h. absurd (cc) }

get-install_example :
    get toy_hash (install toy_hash empty_store seven).0 (toy_hash seven) ≡ ok seven
get-install_example =
    (get-install toy_hash empty_store seven (omega arith) empty-IsVerified toy_hash-seven).1
