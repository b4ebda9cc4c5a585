-- ===== src/Config/Store/Calls/Outcomes.antt =====
-- What the order of the parts of several calls of `Update` decides, and what it does not.
use mathlib.Core.List.{map}
use text.Mathlib.Text.{◌==◌ as str_eq}
use text.Mathlib.TextEquality.{eq_iff}
use vbus2mqtt.Prelude.{
  ℕ, zero, suc, ◌+◌, ◌%◌, ◌^◌, ◌≡◌, ◌≢◌, refl, ◌∙◌, inl, inr, true, Bool-cases, List, [], ◌∷◌,
  Option, Option-cases, get_or, none, some, arith, ◌==◌,
}
use vbus2mqtt.Config.{Config, Durations}
use vbus2mqtt.Config.Store.{Store, rename_failed, to_persisted}
use vbus2mqtt.Config.Store.Calls.{
  Content, emptied, whole, broken, Files, Shared, Stage, change, count_up, copy, make_directory,
  open_file, write, rename, returned, Answer, set_content, open_tmp, written, rename_tmp, save_part,
  proceed, proceed_nth, interleave,
}

-- How often a call is still to count the version up.
abbrev pub to_count : Stage → ℕ
to_count (change fn) = 1
to_count count_up = 1
to_count _ = 0

abbrev pub all_to_count : List Stage → ℕ
all_to_count [] = 0
all_to_count (c ∷ cs) = to_count c + all_to_count cs

module _ (t : Durations) where
  proceed-version :
      (a : Answer) (c : Stage) (w : Shared)
      → let (c', w') = proceed t a c w in
        (w'.store.version + to_count c') % 2 ^ 64 ≡ (w.store.version + to_count c) % 2 ^ 64
  unfolding proceed save_part rename_tmp
  proceed-version a (change fn) w = refl
  proceed-version a count_up w = ground arith
  proceed-version a copy w = refl
  proceed-version a (make_directory c) w = ground arith
  proceed-version a (open_file c) w = ground arith
  proceed-version a (write c i) w = ground arith
  proceed-version a rename w = ground arith
  proceed-version a (returned r) w = refl

  proceed_nth-version :
      (a : Answer) (n : ℕ) (cs : List Stage) (w : Shared)
      → let (cs', w') = proceed_nth t a n cs w in
        (w'.store.version + all_to_count cs') % 2 ^ 64
        ≡ (w.store.version + all_to_count cs) % 2 ^ 64
  unfolding proceed_nth
  proceed_nth-version a n [] w = refl
  proceed_nth-version a zero (c ∷ cs) w = omega (arith, proceed-version a c w)
  proceed_nth-version a (suc n) (c ∷ cs) w = omega (arith, proceed_nth-version a n cs w)

  -- In whatever order the parts of the calls run and however the system answers each of them, the
  -- version and the number of calls that have not yet counted it up keep their sum, modulo 2 ^ 64: no
  -- call's count is lost.
  pub interleave-version :
      (schedule : List (ℕ × Answer)) (cs : List Stage) (w : Shared)
      → let (cs', w') = interleave t schedule cs w in
        (w'.store.version + all_to_count cs') % 2 ^ 64
        ≡ (w.store.version + all_to_count cs) % 2 ^ 64
  unfolding interleave
  interleave-version [] cs w = refl
  interleave-version ((n, a) ∷ ns) cs w =
      interleave-version ns (proceed_nth t a n cs w).0 (proceed_nth t a n cs w).1
      ∙ proceed_nth-version a n cs w

-- Every part succeeds.
abbrev pub good : ℕ → ℕ × Answer
good n = (n, record { ok = true; left = broken })

-- An order in which the first call copies its configuration, the second one changes it and writes it,
-- and the first call's older copy then replaces what the second one wrote, before it is renamed.
abbrev pub overtaking : List (ℕ × Answer)
overtaking = map good (0 ∷ 0 ∷ 0 ∷ 0 ∷ 1 ∷ 1 ∷ 1 ∷ 1 ∷ 1 ∷ 1 ∷ 0 ∷ 0 ∷ 1 ∷ 0 ∷ [])

-- An order in which the first call empties the temporary file between the second one's write and its
-- renaming.
abbrev pub emptying : List (ℕ × Answer)
emptying = map good (1 ∷ 1 ∷ 1 ∷ 1 ∷ 1 ∷ 1 ∷ 0 ∷ 0 ∷ 0 ∷ 0 ∷ 0 ∷ 1 ∷ [])

-- What the store's path leads to.
abbrev pub file_of : Files → Option Content
file_of f = elim f.main [ none ↦ none | some i ↦ some (f.content i) ]

same_number : (i : ℕ) → (i == i) ≡ true
same_number i = ground arith

-- For every store with a path and every two changes there is an order of the parts of the two calls
-- in which the system grants all that can be done, the second call reports no error, the first one finds no
-- temporary file to rename and reports that, and the file holds the configuration without the second
-- change, which the store has.
pub interleave-overtaking :
    (t : Durations) (f g : Config → Config) (s : Store) (files : Files)
    → s.path ≢ ""
    → let (calls, w) =
        interleave t overtaking (change f ∷ change g ∷ []) (record { store = s; files = files }) in
      (calls ≡ returned (some rename_failed) ∷ returned none ∷ [])
      × (w.store.cfg ≡ g (f s.cfg))
      × (file_of w.files ≡ some (whole (to_persisted t (f s.cfg))))
unfolding interleave proceed_nth proceed save_part rename_tmp open_tmp set_content written
interleave-overtaking t f g s files h = elim (Bool-cases (str_eq s.path "")) [
  | inl e ↦ absurd (ground (arith, eq_iff s.path ""))
  | inr e ↦ elim (Option-cases files.tmp) [
    | inl new ↦ simp (e, new, same_number files.next) (refl, refl, refl)
    | inr (i, old) ↦ simp (e, old, same_number i) (refl, refl, refl)
  ]
]

-- For every store with a path and every two changes there is an order of the parts of the two calls in
-- which the system grants all that can be done, the second call has reported no error, and the file is empty.
pub interleave-emptying :
    (t : Durations) (f g : Config → Config) (s : Store) (files : Files)
    → s.path ≢ ""
    → let (calls, w) =
        interleave t emptying (change f ∷ change g ∷ []) (record { store = s; files = files }) in
      (get_or calls 1 (change f) ≡ returned none) × (file_of w.files ≡ some emptied)
unfolding interleave proceed_nth proceed save_part rename_tmp open_tmp set_content written
interleave-emptying t f g s files h = elim (Bool-cases (str_eq s.path "")) [
  | inl e ↦ absurd (ground (arith, eq_iff s.path ""))
  | inr e ↦ elim (Option-cases files.tmp) [
    | inl new ↦ simp (e, new, same_number files.next) (refl, refl)
    | inr (i, old) ↦ simp (e, old, same_number i) (refl, refl)
  ]
]
