-- ===== src/Core/Json.antt =====
-- `serde_json::Value`, which is not part of the repository: what the program calls on it, with the
-- laws that serde_json documents, and one implementation of them.
use rootmode.Prelude.{
  ℕ, ◌≤◌, ◌≡◌, refl, Bool, true, false, Option, none, some, arith, u64_max, leb, if◌then◌else◌,
}
use rootmode.Prelude.Text.{Text, text_eq}

pub record JsonApi : Type 1 where
  pub Value : Type 0
  -- `Value::get` with a string index, `as_u64`, `as_bool`, `as_str`, `is_null`.
  pub get : Value → Text → Option Value
  pub as_u64 : Value → Option ℕ
  pub as_bool : Value → Option Bool
  pub as_str : Value → Option Text
  pub is_null : Value → Bool
  -- `as_object_mut().is_some()`, and `Map::insert` on an object.
  pub is_object : Value → Bool
  pub insert : Value → Text → Value → Value
  -- `From<u64>`, `From<bool>`, `From<&str>`.
  pub of_u64 : ℕ → Value
  pub of_bool : Bool → Value
  pub of_str : Text → Value
  pub get-insert :
      (v : Value) (k j : Text) (x : Value)
      → is_object v ≡ true
      → get (insert v k x) j ≡ (if text_eq k j then some x else get v j)
  pub is_object-insert : (v : Value) (k : Text) (x : Value) → is_object (insert v k x) ≡ is_object v
  pub as_u64-of_u64 : (n : ℕ) → n ≤ u64_max → as_u64 (of_u64 n) ≡ some n
  pub as_bool-of_bool : (b : Bool) → as_bool (of_bool b) ≡ some b
  pub as_u64_bound : (v : Value) (n : ℕ) → as_u64 v ≡ some n → n ≤ u64_max

mutual
  pub data Tree : Type 0 where
    null : Tree
    num : ℕ → Tree
    bool : Bool → Tree
    str : Text → Tree
    obj : Fields → Tree

  pub data Fields : Type 0 where
    end : Fields
    field : Text → Tree → Fields → Fields

abbrev pub find : Text → Fields → Option Tree
find k end = none
find k (field j v fs) = if text_eq j k then some v else find k fs

abbrev pub tree_get : Tree → Text → Option Tree
tree_get (obj fs) k = find k fs
tree_get null k = none
tree_get (num n) k = none
tree_get (bool b) k = none
tree_get (str s) k = none

abbrev pub tree_u64 : Tree → Option ℕ
tree_u64 (num n) = if leb n u64_max then some n else none
tree_u64 null = none
tree_u64 (bool b) = none
tree_u64 (str s) = none
tree_u64 (obj fs) = none

abbrev pub tree_bool : Tree → Option Bool
tree_bool (bool b) = some b
tree_bool null = none
tree_bool (num n) = none
tree_bool (str s) = none
tree_bool (obj fs) = none

abbrev pub tree_str : Tree → Option Text
tree_str (str s) = some s
tree_str null = none
tree_str (num n) = none
tree_str (bool b) = none
tree_str (obj fs) = none

abbrev pub tree_is_null : Tree → Bool
tree_is_null null = true
tree_is_null (num n) = false
tree_is_null (bool b) = false
tree_is_null (str s) = false
tree_is_null (obj fs) = false

abbrev pub tree_is_object : Tree → Bool
tree_is_object (obj fs) = true
tree_is_object null = false
tree_is_object (num n) = false
tree_is_object (bool b) = false
tree_is_object (str s) = false

-- A later member of the same name hides an earlier one, so the new one goes in front.
abbrev pub tree_insert : Tree → Text → Tree → Tree
tree_insert (obj fs) k x = obj (field k x fs)
tree_insert null k x = null
tree_insert (num n) k x = num n
tree_insert (bool b) k x = bool b
tree_insert (str s) k x = str s

pub tree_get-insert :
    (v : Tree) (k j : Text) (x : Tree)
    → tree_is_object v ≡ true
    → tree_get (tree_insert v k x) j ≡ (if text_eq k j then some x else tree_get v j)
tree_get-insert (obj fs) k j x h = refl
tree_get-insert null k j x h = ground arith
tree_get-insert (num n) k j x h = ground arith
tree_get-insert (bool b) k j x h = ground arith
tree_get-insert (str s) k j x h = ground arith

pub tree_is_object-insert :
    (v : Tree) (k : Text) (x : Tree) → tree_is_object (tree_insert v k x) ≡ tree_is_object v
tree_is_object-insert (obj fs) k x = refl
tree_is_object-insert null k x = refl
tree_is_object-insert (num n) k x = refl
tree_is_object-insert (bool b) k x = refl
tree_is_object-insert (str s) k x = refl

pub tree_u64-num : (n : ℕ) → n ≤ u64_max → tree_u64 (num n) ≡ some n
tree_u64-num n h = ground arith

pub tree_u64_bound : (v : Tree) (n : ℕ) → tree_u64 v ≡ some n → n ≤ u64_max
tree_u64_bound (num m) n h = ground arith
tree_u64_bound null n h = cc
tree_u64_bound (bool b) n h = cc
tree_u64_bound (str s) n h = cc
tree_u64_bound (obj fs) n h = cc

-- The interface is inhabited.
abbrev pub trees : JsonApi
trees = record {
  Value = Tree;
  get = tree_get;
  as_u64 = tree_u64;
  as_bool = tree_bool;
  as_str = tree_str;
  is_null = tree_is_null;
  is_object = tree_is_object;
  insert = tree_insert;
  of_u64 = num;
  of_bool = bool;
  of_str = str;
  get-insert = tree_get-insert;
  is_object-insert = tree_is_object-insert;
  as_u64-of_u64 = tree_u64-num;
  as_bool-of_bool = λ b. refl;
  as_u64_bound = tree_u64_bound;
}
