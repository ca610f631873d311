-- ===== src/Extern/Json.antt =====
-- `serde_json::Value`, as far as the sign document uses it, and `serde_json::to_vec`.
-- An object's fields stand in the order in which `to_vec` writes them.
use Prim.Native.String.{String}
use reth_cosmos.Prelude.{◌≡◌, Bool, true, false, [], ◌∷◌, ◌&&◌, ◌||◌, Bytes, ltb, ◌==◌}
use Prim.Native.Char.{code}

mutual
  pub data Json : Type 0 where
    str : Bytes → Json
    arr : Items → Json
    obj : Fields → Json

  pub data Items : Type 0 where
    nil : Items
    cons : Json → Items → Items

  pub data Fields : Type 0 where
    end : Fields
    field : Bytes → Json → Fields → Fields

-- The bytes of an ASCII text.
abbrev pub codes : String → Bytes
codes String.[] = []
codes (String.◌∷◌ c s) = code c ∷ codes s

-- The byte-wise order of strings.
unfoldable pub bytes_lt : Bytes → Bytes → Bool
bytes_lt [] [] = false
bytes_lt [] (y ∷ ys) = true
bytes_lt (x ∷ xs) [] = false
bytes_lt (x ∷ xs) (y ∷ ys) = ltb x y || (x == y && bytes_lt xs ys)

-- Every key is above the one before it: `serde_json::Map` is a `BTreeMap`, and holds such lists.
unfoldable mutual
  pub is_sorted : Json → Bool
  is_sorted (str s) = true
  is_sorted (arr xs) = is_sorted_items xs
  is_sorted (obj fs) = is_sorted_fields fs

  pub is_sorted_items : Items → Bool
  is_sorted_items nil = true
  is_sorted_items (cons x xs) = is_sorted x && is_sorted_items xs

  pub is_sorted_fields : Fields → Bool
  is_sorted_fields end = true
  is_sorted_fields (field k v fs) = is_sorted v && is_above k fs && is_sorted_fields fs

  pub is_above : Bytes → Fields → Bool
  is_above k end = true
  is_above k (field j v fs) = bytes_lt k j

-- A document with sorted keys can be read back from its serialisation.
pub record JsonLaws (to_vec : Json → Bytes) : Type 0 where
  pub to_vec_injective :
      (v w : Json) → is_sorted v ≡ true → is_sorted w ≡ true → to_vec v ≡ to_vec w → v ≡ w
