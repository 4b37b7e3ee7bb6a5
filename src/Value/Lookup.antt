-- ===== src/Value/Lookup.antt =====
-- What a map assignment leaves at a key.
use text.Mathlib.TextEquality.{eq_iff}
use intentproof_tools.Prelude.{
  String, ◌≡◌, refl, some, false, ◌==◌, Eq-String, if◌then◌else◌, arith,
}
use intentproof_tools.Value.{Value, Fields, get, set, delete, end, field}

pub get-set :
    (k j : String) (v : Value) (m : Fields)
    → get k (set j v m) ≡ (if j == k then some v else get k m)
unfolding get set
get-set k j v end = ground arith
get-set k j v (field i w m) = ground (arith, eq_iff i j, eq_iff i k, eq_iff j k, get-set k j v m)

-- What is set at a key is gone when the key is deleted.
pub delete-set : (k : String) (v : Value) (m : Fields) → delete k (set k v m) ≡ delete k m
unfolding delete set
delete-set k v end = ground (arith, eq_iff k k)
delete-set k v (field i w m) = ground (arith, eq_iff i k, eq_iff k k, delete-set k v m)

-- Deleting one key and setting another one may change places.
pub delete-set_other :
    (j k : String) (v : Value) (m : Fields)
    → (k == j) ≡ false
    → delete j (set k v m) ≡ set k v (delete j m)
unfolding delete set
delete-set_other j k v end h = ground arith
delete-set_other j k v (field i w m) h =
    ground (arith, eq_iff i j, eq_iff i k, eq_iff k j, delete-set_other j k v m)

pub delete_comm : (j k : String) (m : Fields) → delete j (delete k m) ≡ delete k (delete j m)
unfolding delete
delete_comm j k end = refl
delete_comm j k (field i w m) = ground (arith, delete_comm j k m)
