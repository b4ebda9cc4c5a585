-- ===== src/Config/Store/Calls/Alone.antt =====
-- One call of `Update` of internal/config/store.go with no other call between its parts, stopped after
-- any of them.
use text.Mathlib.Text.{◌==◌ as str_eq}
use text.Mathlib.TextEquality.{eq_iff}
use mathlib.Core.Path.{subst}
use vbus2mqtt.Prelude.{
  ℕ, ◌+◌, ◌≤◌, ◌≡◌, ◌≢◌, refl, ◌∙◌, ap, inl, inr, ◌⊎◌, true, Bool-cases, List, [], ◌∷◌, Option,
  Option-cases, none, some, arith, ==_iff,
}
use vbus2mqtt.Config.{Config, Durations}
use vbus2mqtt.Config.Store.{Store, to_persisted}
use vbus2mqtt.Config.Store.Calls.{
  Content, emptied, whole, Files, Shared, Stage, change, count_up, copy, make_directory, open_file,
  write, rename, returned, Answer, set_content, open_tmp, written, rename_tmp, save_part, proceed,
}
use vbus2mqtt.Config.Store.Calls.Outcomes.{file_of}

-- The two paths do not name one file, and the next number is free.
abbrev pub IsApart : Option ℕ → Option ℕ → ℕ → Type 0
IsApart none tmp next = Unit
IsApart (some m) none next = m + 1 ≤ next
IsApart (some m) (some i) next = (m + 1 ≤ next) × (m ≢ i)

file_of-other :
    (i : ℕ) (c : Content) (f : Files)
    → IsApart f.main (some i) f.next
    → file_of (set_content i c f) ≡ file_of f
unfolding set_content
file_of-other i c f h = elim (Option-cases f.main) [
  | inl e ↦ rw e refl
  | inr (m, e) ↦ ground (arith, e, ==_iff m i)
]

content-set : (i : ℕ) (c : Content) (f : Files) → (set_content i c f).content i ≡ c
unfolding set_content
content-set i c f = ground (arith, ==_iff i i)

IsApart-new :
    (main : Option ℕ) (next : ℕ) → IsApart main none next → IsApart main (some next) (next + 1)
IsApart-new none next h = tt
IsApart-new (some m) next h = (omega arith, λ e. omega (arith, e, h))

module _ (t : Durations) where
  -- The parts of a call, one for each answer.
  unfoldable pub run_parts : List Answer → Stage → Shared → Stage × Shared
  run_parts [] c w = (c, w)
  run_parts (a ∷ answers) c w = let (c', w') = proceed t a c w in run_parts answers c' w'

  module _ (old : Option Content) (target : Config) where
    abbrev IsReady : Files → Type 0
    IsReady f = (file_of f ≡ old) × IsApart f.main f.tmp f.next

    -- What holds while the call is at a stage.
    IsOnTrack : Stage → Shared → Type 0
    IsOnTrack (change g) w = (w.store.path ≢ "") × (g w.store.cfg ≡ target) × IsReady w.files
    IsOnTrack count_up w = (w.store.path ≢ "") × (w.store.cfg ≡ target) × IsReady w.files
    IsOnTrack copy w = (w.store.cfg ≡ target) × IsReady w.files
    IsOnTrack (make_directory c) w = (c ≡ target) × IsReady w.files
    IsOnTrack (open_file c) w = (c ≡ target) × IsReady w.files
    IsOnTrack (write c i) w =
        (c ≡ target) × IsReady w.files × (w.files.tmp ≡ some i) × (w.files.content i ≡ emptied)
    IsOnTrack rename w =
        IsReady w.files
        × ((i : ℕ) × (w.files.tmp ≡ some i) × (w.files.content i ≡ whole (to_persisted t target)))
    IsOnTrack (returned none) w = file_of w.files ≡ some (whole (to_persisted t target))
    IsOnTrack (returned (some e)) w = file_of w.files ≡ old

    opened :
        (a : Answer) (c : Config) (w : Shared)
        → a.ok ≡ true
        → c ≡ target
        → IsReady w.files
        → let (c', w') = proceed t a (open_file c) w in IsOnTrack c' w'
    unfolding proceed save_part IsOnTrack open_tmp set_content
    opened a c w ok e (same, apart) = elim (Option-cases w.files.tmp) [
      | inl new ↦
          let f = w.files in
          let free = subst (λ (tmp : Option ℕ). IsApart f.main tmp f.next) new apart in
          let apart' = IsApart-new f.main f.next free in
          rw (ok, new)
            (
              e,
              (
                file_of-other f.next emptied (record f { next = f.next + 1; tmp = some f.next })
                      (apart')
                    ∙ same,
                apart',
              ),
              refl,
              content-set f.next emptied f,
            )
      | inr (i, there) ↦
          let f = w.files in
          let apart' = subst (λ (tmp : Option ℕ). IsApart f.main tmp f.next) there apart in
          rw (ok, there)
            (e, (file_of-other i emptied f apart' ∙ same, apart'), refl, content-set i emptied f)
    ]

    written-whole :
        (a : Answer) (c : Config) (before : Content)
        → a.ok ≡ true
        → before ≡ emptied
        → c ≡ target
        → written a (to_persisted t c) before ≡ whole (to_persisted t target)
    unfolding written
    written-whole a c before ok empty e =
        rw (empty, ok) (ap (λ (g : Config). whole (to_persisted t g)) e)

    wrote :
        (a : Answer) (c : Config) (i : ℕ) (w : Shared)
        → IsOnTrack (write c i) w
        → let (c', w') = proceed t a (write c i) w in IsOnTrack c' w'
    unfolding proceed save_part IsOnTrack set_content
    wrote a c i w (e, (same, apart), there, empty) =
        let f = w.files in
        let apart' = subst (λ (tmp : Option ℕ). IsApart f.main tmp f.next) there apart in
        let x = written a (to_persisted t c) (f.content i) in
        let kept : IsReady (set_content i x f) = (file_of-other i x f apart' ∙ same, apart) in
        elim (Bool-cases a.ok) [
          | inl ok ↦
              simp ok
                (kept, (i, there, content-set i x f ∙ written-whole a c (f.content i) ok empty e))
          | inr bad ↦ simp bad kept.0
        ]

    step-IsOnTrack :
        (a : Answer) (c : Stage) (w : Shared)
        → IsOnTrack c w
        → let (c', w') = proceed t a c w in IsOnTrack c' w'
    unfolding proceed save_part IsOnTrack rename_tmp
    step-IsOnTrack a (change g) w h = h
    step-IsOnTrack a count_up w (path, cfg, ready) = elim (Bool-cases (str_eq w.store.path "")) [
      | inl e ↦ absurd (path ((eq_iff w.store.path "").0 e))
      | inr e ↦ rw e (cfg, ready)
    ]
    step-IsOnTrack a copy w h = h
    step-IsOnTrack a (make_directory c) w (e, ready) = elim (Bool-cases a.ok) [
      | inl ok ↦ rw ok (e, ready)
      | inr bad ↦ rw bad ready.0
    ]
    step-IsOnTrack a (open_file c) w (e, ready) = elim (Bool-cases a.ok) [
      | inl ok ↦ opened a c w ok e ready
      | inr bad ↦ rw bad ready.0
    ]
    step-IsOnTrack a (write c i) w h = wrote a c i w h
    step-IsOnTrack a rename w (ready, (i, there, content)) = elim (Bool-cases a.ok) [
      | inl ok ↦ rw (there, ok) (ap (λ (c : Content). some c) content)
      | inr bad ↦ rw (there, bad) ready.0
    ]
    step-IsOnTrack a (returned none) w h = h
    step-IsOnTrack a (returned (some e)) w h = h

    run_parts-IsOnTrack :
        (answers : List Answer) (c : Stage) (w : Shared)
        → IsOnTrack c w
        → let (c', w') = run_parts answers c w in IsOnTrack c' w'
    unfolding run_parts
    run_parts-IsOnTrack [] c w h = h
    run_parts-IsOnTrack (a ∷ answers) c w h =
        let (c', w') = proceed t a c w in run_parts-IsOnTrack answers c' w' (step-IsOnTrack a c w h)

    -- What the stages have in common.
    IsOnTrack-file :
        (c : Stage) (w : Shared)
        → IsOnTrack c w
        → (c ≢ returned none) × (file_of w.files ≡ old)
          ⊎ (c ≡ returned none) × (file_of w.files ≡ some (whole (to_persisted t target)))
    unfolding IsOnTrack
    IsOnTrack-file (change g) w (path, cfg, ready) = inl (λ e. cc, ready.0)
    IsOnTrack-file count_up w (path, cfg, ready) = inl (λ e. cc, ready.0)
    IsOnTrack-file copy w (cfg, ready) = inl (λ e. cc, ready.0)
    IsOnTrack-file (make_directory c) w (e, ready) = inl (λ e. cc, ready.0)
    IsOnTrack-file (open_file c) w (e, ready) = inl (λ e. cc, ready.0)
    IsOnTrack-file (write c i) w (e, ready, there, empty) = inl (λ e. cc, ready.0)
    IsOnTrack-file rename w (ready, there) = inl (λ e. cc, ready.0)
    IsOnTrack-file (returned none) w h = inr (refl, h)
    IsOnTrack-file (returned (some e)) w h = inl (λ e. cc, h)

  -- A call of `Update` with a path, stopped after any of its parts, with no other call between them
  -- and however the system answers each: either it has not reported success, and the file is as it
  -- was, or it has, and the file holds the whole new configuration. At first the two paths must not
  -- name one file, and the next file's number must be free.
  pub run_parts_atomic :
      (answers : List Answer) (fn : Config → Config) (s : Store) (f : Files)
      → s.path ≢ ""
      → IsApart f.main f.tmp f.next
      → let (c, w) = run_parts answers (change fn) (record { store = s; files = f }) in
        (c ≢ returned none) × (file_of w.files ≡ file_of f)
        ⊎ (c ≡ returned none) × (file_of w.files ≡ some (whole (to_persisted t (fn s.cfg))))
  unfolding IsOnTrack
  run_parts_atomic answers fn s f path apart =
      let w : Shared = record { store = s; files = f } in
      let (c', w') = run_parts answers (change fn) w in
      IsOnTrack-file (file_of f) (fn s.cfg) c' w' (
        run_parts-IsOnTrack (file_of f) (fn s.cfg) answers (change fn) w
          (path, refl, (refl, apart)))
