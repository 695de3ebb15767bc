-- ===== src/Stores/Tools.antt =====
-- ToolLibraryStore of lcnc-gateway/tool_store.py. The lock is left out: operations run one after another.
use text.Mathlib.Text.{starts_with}
use lcnc_suite.Base.{
  String, ℕ, ◌==◌, Bool, true, false, Option, none, some, List, [], ◌∷◌, if◌then◌else◌,
}
use lcnc_suite.Value.{Value, str, obj, arr, Fields, field, end, Items, cons, nil, assoc, truth}
use lcnc_suite.Stores.Settings.{entry_of}

-- The file: `none` if it is missing, else its time of change and its bytes.
pub record Store (Bytes : Type 0) : Type 0 where
  pub file : Option (ℕ × Bytes)
  pub cache : Option (ℕ × Value)

-- What the disk does in one operation: whether `stat`, `open` and the write go through, and the time
-- a written file gets.
pub record Disk : Type 0 where
  pub stats : Bool
  pub opens : Bool
  pub writes : Bool
  pub now : ℕ

unfoldable pub keys : Fields → List Value
keys end = []
keys (field k v rest) = str k ∷ keys rest

unfoldable pub items : Items → List Value
items nil = []
items (cons v rest) = v ∷ items rest

-- `any(test(k) for k in ks)`, where the test is a method of texts.
unfoldable pub any_text : (String → Bool) → List Value → Option Bool
any_text test [] = some false
any_text test (str s ∷ vs) = let rest = any_text test vs in if test s then some true else rest
any_text test (_ ∷ vs) = none

-- `not a and b`, which raises where an operand that it reads does.
unfoldable pub not_and : Option Bool → Option Bool → Option Bool
not_and none b = none
not_and (some true) b = some false
not_and (some false) b = b

-- `letters` are the characters of a text, and `is_digit` is `str.isdigit`.
module _ (letters : String → List Value) (is_digit : String → Bool) where
  -- What iterating over a value gives.
  unfoldable pub iterate : Value → Option (List Value)
  unfolding keys items
  iterate (obj d) = some (keys d)
  iterate (arr vs) = some (items vs)
  iterate (str s) = some (letters s)
  iterate _ = none

  -- Whether the data is in the old flat format.
  unfoldable pub is_flat : Value → Option Bool
  unfolding iterate any_text not_and truth
  is_flat v = if truth v then of_keys (iterate v) else some false
    where
      of_keys : Option (List Value) → Option Bool
      of_keys none = none
      of_keys (some ks) = not_and (any_text (λ k. starts_with k "/") ks) (any_text is_digit ks)

unfoldable pub cached : Option (ℕ × Value) → Value
cached none = obj end
cached (some (_, v)) = v

module _ {Bytes : Type 0} (loads : Bytes → Option Value) where
  -- `_load_all`
  unfoldable pub load_all : Disk → Store Bytes → Value × Store Bytes
  unfolding cached
  load_all disk s = at_path s.file
    where
      parsed : ℕ → Option Value → Value × Store Bytes
      parsed t none = (cached s.cache, s)
      parsed t (some v) = (v, record s { cache = some (t, v) })

      read : ℕ → Bytes → Value × Store Bytes
      read t b = if disk.opens then parsed t (loads b) else (cached s.cache, s)

      reuse : Option (ℕ × Value) → ℕ → Bytes → Value × Store Bytes
      reuse none t b = read t b
      reuse (some (u, v)) t b = if u == t then (v, s) else read t b

      at_path : Option (ℕ × Bytes) → Value × Store Bytes
      at_path none = (obj end, record s { cache = none })
      at_path (some (t, b)) = if disk.stats then reuse s.cache t b else (cached s.cache, s)

  -- The strict read of `save`
  unfoldable pub reread : Disk → Option (ℕ × Bytes) → Option Value
  reread disk none = some (obj end)
  reread disk (some (t, b)) = if disk.opens then loads b else none

module _ {Bytes : Type 0} (dumps : Value → Bytes) (loads : Bytes → Option Value) where
  -- `_save_all`, with whether it returns
  unfoldable pub save_all : Disk → Value → Store Bytes → Bool × Store Bytes
  save_all disk v s =
      if disk.writes
      then (true, record s { file = some (disk.now, dumps v); cache = none })
      else (false, s)

  -- `save`, with whether it returns
  unfoldable pub save : Disk → String → Value → Store Bytes → Bool × Store Bytes
  unfolding reread save_all assoc
  save disk ini library s = put (reread loads disk s.file)
    where
      put : Option Value → Bool × Store Bytes
      put (some (obj d)) = save_all disk (obj (assoc ini library d)) s
      put _ = (false, s)

  module _ (letters : String → List Value) (is_digit : String → Bool) where
    unfoldable pub load : Disk → String → Store Bytes → Option Value × Store Bytes
    unfolding load_all is_flat save_all entry_of
    load disk ini s = migrate (is_flat letters is_digit (load_all loads disk s).0)
      where
        all : Value
        all = (load_all loads disk s).0

        wrapped : Value
        wrapped = obj (field ini all end)

        saved : Bool × Store Bytes → Option Value × Store Bytes
        saved (true, t) = (entry_of ini wrapped, t)
        saved (false, t) = (none, t)

        migrate : Option Bool → Option Value × Store Bytes
        migrate none = (none, (load_all loads disk s).1)
        migrate (some false) = (entry_of ini all, (load_all loads disk s).1)
        migrate (some true) = saved (save_all disk wrapped (load_all loads disk s).1)
