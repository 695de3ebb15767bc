-- ===== src/Fanout/View.antt =====
-- A client's view of the status after a sequence of full frames and differences.
use text.Mathlib.Text.{◌==◌ as str_eq}
use text.Mathlib.TextPositions.{eq_refl}
use mathlib.Core.Path.{subst}
use mathlib.Core.Option.{some-injective}
use lcnc_suite.Base.{
  ◌≡◌, refl, sym, ap, ◌∙◌, inl, inr, ◌⊎◌, String, ℕ, Bool, true, false, Option, none, some, List,
  [], ◌∷◌, ◌++◌, if◌then◌else◌, arith, if-cases, Bool-cases, leb,
}
use lcnc_suite.Value.{text-eq}
use lcnc_suite.Fanout.{
  Status, find_field, put_field, merge, Frame, Loop, is_kept, diff_status_data, next_frame, receive,
  start, ticks,
}

module _ {V : Type 0} where
  find_field-put_field :
      (k : String) (v : V) (d : Status V) → find_field (put_field k v d) k ≡ some v
  unfolding find_field put_field
  find_field-put_field k v [] = rw (eq_refl k) refl
  find_field-put_field k v ((j, w) ∷ rest) =
      let ih = find_field-put_field k v rest in ground (arith, ih)

  find_field-put_field_other :
      (k l : String) (v : V) (d : Status V)
      → str_eq k l ≡ false
      → find_field (put_field k v d) l ≡ find_field d l
  unfolding find_field put_field
  find_field-put_field_other k l v [] h = rw h refl
  find_field-put_field_other k l v ((j, w) ∷ rest) h =
      let ih = find_field-put_field_other k l v rest h in
      let differ =
        λ (e : str_eq j k ≡ true). sym (ap (λ t. str_eq t l) (sym (text-eq j k e))) ∙ h in
      elim (Bool-cases (str_eq j k)) [
        | inl e ↦ let f = differ e in ground (arith, ih)
        | inr e ↦ ground (arith, ih)
      ]

  abbrev or_else : Option V → Option V → Option V
  or_else none o = o
  or_else (some v) o = some v

  find_field-merge :
      (base d : Status V) (l : String)
      → find_field (merge base d) l ≡ or_else (find_field d l) (find_field base l)
  unfolding find_field merge
  find_field-merge base [] l = refl
  find_field-merge base ((k, v) ∷ d) l =
      let ih = find_field-merge base d l in
      elim (Bool-cases (str_eq k l)) [
        | inl e ↦
            subst
              (λ x.
                find_field (put_field k v (merge base d)) x
                ≡ or_else (find_field ((k, v) ∷ d) x) (find_field base x))
              (text-eq k l e) (rw (find_field-put_field k v (merge base d), eq_refl k) refl)
        | inr e ↦ rw (find_field-put_field_other k l v (merge base d) e, e) ih
      ]

  -- A dict has each key once.
  unfoldable pub IsDistinct : Status V → Type 0
  IsDistinct [] = Unit
  IsDistinct ((k, v) ∷ rest) = (find_field rest k ≡ none) × IsDistinct rest

module _ {V : Type 0} (equal : V → V → Bool) where
  diff-missing :
      (last current : Status V) (k : String)
      → find_field current k ≡ none
      → find_field (diff_status_data equal last current) k ≡ none
  unfolding find_field diff_status_data
  diff-missing last [] k h = refl
  diff-missing last ((j, w) ∷ rest) k h = let ih = diff-missing last rest k in ground (arith, ih, h)

  -- What the difference has for a key with the value `v`.
  abbrev change_of : Status V → String → V → Option V
  change_of last k v = if is_kept equal (find_field last k) v then none else some v

  diff-head :
      (last rest : Status V) (k : String) (v : V)
      → find_field rest k ≡ none
      → find_field (diff_status_data equal last ((k, v) ∷ rest)) k ≡ change_of last k v
  unfolding find_field diff_status_data
  diff-head last rest k v m =
      let gone = diff-missing last rest k m in let same = eq_refl k in ground (arith, gone, same)

  diff-found :
      (last current : Status V) (k : String) (v : V)
      → IsDistinct current
      → find_field current k ≡ some v
      → find_field (diff_status_data equal last current) k ≡ change_of last k v
  unfolding find_field diff_status_data IsDistinct
  diff-found last [] k v _ h = absurd (ground (arith, h))
  diff-found last ((j, w) ∷ rest) k v (m, ds) h =
      let ih = diff-found last rest k v ds in by_key (Bool-cases (str_eq j k)) ih
    where
      here :
          str_eq j k ≡ true
          → find_field (diff_status_data equal last ((j, w) ∷ rest)) k ≡ change_of last k v
      here e =
          subst
            (λ x. find_field (diff_status_data equal last ((j, w) ∷ rest)) x ≡ change_of last x v)
            (text-eq j k e)
            (subst
              (λ u. find_field (diff_status_data equal last ((j, w) ∷ rest)) j ≡ change_of last j u)
              (ground (arith, h, e)) (diff-head last rest j w m))

      by_key :
          (str_eq j k ≡ true) ⊎ (str_eq j k ≡ false)
          → (find_field rest k ≡ some v
              → find_field (diff_status_data equal last rest) k ≡ change_of last k v)
          → find_field (diff_status_data equal last ((j, w) ∷ rest)) k ≡ change_of last k v
      by_key (inl e) ih = here e
      by_key (inr e) ih = ground (arith, h, e, ih)

  -- The same value, up to `==`.
  abbrev pub Same : V → V → Type 0
  Same w v = (w ≡ v) ⊎ (equal w v ≡ true)

  -- Every field of the status is in the client's view.
  abbrev pub Shows : Status V → Status V → Type 0
  Shows view current =
      (k : String) (v : V)
      → find_field current k ≡ some v
      → (w : V) × (find_field view k ≡ some w) × Same w v

  Shows-merge :
      ((a b c : V) → equal a b ≡ true → equal b c ≡ true → equal a c ≡ true)
      → (view last current : Status V) → IsDistinct current
      → Shows view last
      → Shows (merge view (diff_status_data equal last current)) current
  Shows-merge trans view last current ds shows k v h = by_last (find_field last k) refl (
      find_field-merge view (diff_status_data equal last current) k
      ∙ ap (λ o. or_else o (find_field view k)) (diff-found last current k v ds h))
    where
      Shown : Type 0
      Shown =
          (w : V) × (find_field (merge view (diff_status_data equal last current)) k ≡ some w)
          × Same w v

      by_last :
          (o : Option V)
          → find_field last k ≡ o
          → find_field (merge view (diff_status_data equal last current)) k
            ≡ or_else (change_of last k v) (find_field view k)
          → Shown
      by_last none e m = (v, ground (arith, e, m), inl refl)
      by_last (some u) e m = kept (equal u v) refl (shows k u e)
        where
          kept :
              (b : Bool) → equal u v ≡ b → (w : V) × (find_field view k ≡ some w) × Same w u → Shown
          kept false d (w, f, s) = (v, ground (arith, e, m, d), inl refl)
          kept true d (w, f, inl s) =
              (w, ground (arith, e, m, d, f), inr (ap (λ x. equal x v) s ∙ d))
          kept true d (w, f, inr s) = (w, ground (arith, e, m, d, f), inr (trans w u v s d))

  -- What the client has seen of the last status that was sent.
  abbrev IsSynced : Loop V × Status V → Type 0
  IsSynced c = (d : Status V) → c.0.last ≡ some d → Shows c.1 d

  abbrev AllDistinct : List (Option (Status V)) → Type 0
  AllDistinct [] = Unit
  AllDistinct (none ∷ ts) = AllDistinct ts
  AllDistinct (some d ∷ ts) = IsDistinct d × AllDistinct ts

  -- A tick leaves the client with the whole status.
  abbrev Follows : Status V → Status V → Frame V × Loop V → Type 0
  Follows current view r = Shows (receive r.0 view) current × (r.1.last ≡ some current)

  next_frame-Follows :
      ((a b c : V) → equal a b ≡ true → equal b c ≡ true → equal a c ≡ true)
      → (interval cycles : ℕ) (current view : Status V) (last : Option (Status V))
      → IsDistinct current
      → IsSynced (record { last = last; cycles = cycles }, view)
      → Follows current view
          (next_frame equal interval current (record { last = last; cycles = cycles }))
  unfolding next_frame receive
  next_frame-Follows trans interval cycles current view none ds synced =
      (λ k v h. (v, h, inl refl), refl)
  next_frame-Follows trans interval cycles current view (some last) ds synced =
      if-cases (Follows current view) (leb interval cycles) _ _
        (λ _. (λ k v h. (v, h, inl refl), refl))
        (λ _. (Shows-merge trans view last current ds (synced last refl), refl))

  step-IsSynced :
      (r : Frame V × Loop V) (current view : Status V)
      → Follows current view r
      → IsSynced (r.1, receive r.0 view)
  step-IsSynced r current view (shows, e) d h =
      subst (Shows (receive r.0 view)) (some-injective _ _ (sym e ∙ h)) shows

  ticks-IsSynced :
      ((a b c : V) → equal a b ≡ true → equal b c ≡ true → equal a c ≡ true)
      → (interval : ℕ) (ts : List (Option (Status V))) (c : Loop V × Status V) → AllDistinct ts
      → IsSynced c
      → IsSynced (ticks equal interval ts c)
  unfolding ticks
  ticks-IsSynced trans interval [] c ds synced = synced
  ticks-IsSynced trans interval (none ∷ ts) c ds synced =
      ticks-IsSynced trans interval ts c ds synced
  ticks-IsSynced trans interval (some d ∷ ts) (s, view) (h, ds) synced =
      ticks-IsSynced trans interval ts _ ds (
        step-IsSynced (next_frame equal interval d s) d view
          (next_frame-Follows trans interval s.cycles d view s.last h synced))

  ticks-last :
      (interval : ℕ) (ts : List (Option (Status V))) (d : Status V) (c : Loop V × Status V)
      → (ticks equal interval (ts ++ some d ∷ []) c).0.last ≡ some d
  unfolding ticks next_frame
  ticks-last interval [] d (s, view) = ground arith
  ticks-last interval (none ∷ ts) d c = ticks-last interval ts d c
  ticks-last interval (some e ∷ ts) d (s, view) = ticks-last interval ts d _

  AllDistinct-append :
      (ts : List (Option (Status V))) (d : Status V)
      → AllDistinct ts
      → IsDistinct d
      → AllDistinct (ts ++ some d ∷ [])
  AllDistinct-append [] d hs h = (h, tt)
  AllDistinct-append (none ∷ ts) d hs h = AllDistinct-append ts d hs h
  AllDistinct-append (some t ∷ ts) d (f, hs) h = (f, AllDistinct-append ts d hs h)

  -- For statuses that have each key once, and an equality of values that is transitive, a client's view
  -- has every field of the latest status that was sent to it, with an equal value, whatever ticks were
  -- skipped and whichever of them were sent as differences.
  pub ticks_lem :
      ((a b c : V) → equal a b ≡ true → equal b c ≡ true → equal a c ≡ true)
      → (interval : ℕ) (ts : List (Option (Status V))) (current : Status V) → AllDistinct ts
      → IsDistinct current
      → Shows (ticks equal interval (ts ++ some current ∷ []) (start, [])).1 current
  unfolding start
  ticks_lem trans interval ts current ds d =
      ticks-IsSynced trans interval (ts ++ some current ∷ []) (start, [])
        (AllDistinct-append ts current ds d) (λ e h. absurd (ground (arith, h))) current
        (ticks-last interval ts current (start, []))
