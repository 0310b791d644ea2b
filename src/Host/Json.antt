-- ===== src/Host/Json.antt =====
-- The values that `JSON.parse` returns, and what JavaScript does with them where the program counts
-- sessions. Numbers are integers. `none` stands for `undefined`.
use open_vibe_host.Base.{
  String, Bool, true, false, not, Option, none, some, List, [], ◌∷◌, ◌==◌, string_eq, if◌then◌else◌,
  ℤ, pos, int_eq,
}

mutual
  pub data Json : Type 0 where
    null : Json
    bool : Bool → Json
    num : ℤ → Json
    str : String → Json
    arr : Items → Json
    obj : Fields → Json

  pub data Items : Type 0 where
    nil : Items
    cons : Json → Items → Items

  pub data Fields : Type 0 where
    end : Fields
    field : String → Json → Fields → Fields

abbrev pub items : Items → List Json
items nil = []
items (cons v vs) = v ∷ items vs

-- An own property; where a key is written twice, `JSON.parse` keeps the last.
unfoldable pub own : String → Fields → Option Json
own k end = none
own k (field j v fs) = last (own k fs) (if j == k then some v else none)
  where
    last : Option Json → Option Json → Option Json
    last (some w) o = some w
    last none o = o

-- `Boolean(v)`
abbrev pub is_truthy : Option Json → Bool
is_truthy none = false
is_truthy (some null) = false
is_truthy (some (bool b)) = b
is_truthy (some (num n)) = not (n == pos 0)
is_truthy (some (str s)) = not (s == "")
is_truthy (some (arr _)) = true
is_truthy (some (obj _)) = true

-- `actual === v`: two objects are never the same object, one from an answer and one from the
-- inventory.
abbrev pub strict_eq : Option Json → Json → Bool
strict_eq (some null) null = true
strict_eq (some (bool true)) (bool b) = b
strict_eq (some (bool false)) (bool b) = not b
strict_eq (some (num a)) (num b) = a == b
strict_eq (some (str a)) (str b) = a == b
strict_eq _ _ = false
