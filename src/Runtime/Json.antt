-- ===== src/Runtime/Json.antt =====
-- The values that `json.loads` returns, over a type of numbers, and what the program asks of Python's
-- `str`, `float` and `dict` on them.
use funnelmanager.Prelude.{Bool, Option, Text, [], false, non_empty, not, refl, true, ◌∷◌, ◌≡◌}
use funnelmanager.Prelude.Dicts.{Dict}

mutual
  pub data Json (N : Type 0) : Type 0 where
    null : Json N
    bool : Bool → Json N
    num : N → Json N
    text : Text → Json N
    arr : Items N → Json N
    obj : Fields N → Json N

  pub data Items (N : Type 0) : Type 0 where
    nil : Items N
    cons : Json N → Items N → Items N

  pub data Fields (N : Type 0) : Type 0 where
    end : Fields N
    field : Text → Json N → Fields N → Fields N

module _ {N : Type 0} where
  abbrev pub entries : Fields N → Dict (Json N)
  entries end = []
  entries (field k v fs) = (k, v) ∷ entries fs

  abbrev pub fields : Dict (Json N) → Fields N
  fields [] = end
  fields ((k, v) ∷ d) = field k v (fields d)

  pub entries-fields : (d : Dict (Json N)) → entries (fields d) ≡ d
  entries-fields [] = refl
  entries-fields ((k, v) ∷ d) = rw (entries-fields d)

-- Python's conversions of a JSON value. A number's form, the `str` of what is no text and the `dict`
-- of a list are left open; the `str` of a text is that text.
pub record Python (N : Type 0) : Type 0 where
  pub is_zero : N → Bool
  pub str : Json N → Text
  pub float : Json N → Option N
  pub dict_of_list : Items N → Option (Dict (Json N))
  pub str_text : (s : Text) → str (text s) ≡ s

module _ {N : Type 0} (py : Python N) where
  -- `bool(v)`
  abbrev pub truthy : Json N → Bool
  truthy null = false
  truthy (bool b) = b
  truthy (num n) = not (py.is_zero n)
  truthy (text s) = non_empty s
  truthy (arr nil) = false
  truthy (arr (cons v vs)) = true
  truthy (obj end) = false
  truthy (obj (field k v fs)) = true
