-- ===== src/Supervisor/Shutdown.antt =====
-- What the main loop keeps in order, and how it stops.
use vbus2mqtt.Prelude.{
  ℕ, ◌-◌, ◌∙◌, ◌+◌, ◌≤◌, ◌≡◌, refl, true, false, Bool-cases, inl, inr, sym, arith,
}
use mathlib.Core.Path.{subst}
use vbus2mqtt.Bridge.{End, stopped, config_changed, read_failed}
use vbus2mqtt.Supervisor.{
  Phase, outer, inner, reading, finished, Supervisor, Turn, goes_on, after_loop, advance_at,
  advance, Step, signal, update, mark, turn, Reachable, start, next,
}

-- What is open in a phase: the client within the outer loop, the port within `readLoop`.
abbrev pub InOrderAt : Phase → Supervisor → Type 0
InOrderAt outer s =
    (s.opened ≡ s.closed) × (s.clients ≡ s.disconnected) × (s.mqtt_connected ≡ false)
InOrderAt (inner ver) s =
    (s.opened ≡ s.closed) × (s.clients ≡ s.disconnected + 1) × (ver ≤ s.version)
InOrderAt (reading ver) s =
    (s.opened ≡ s.closed + 1) × (s.clients ≡ s.disconnected + 1) × (ver ≤ s.version)
InOrderAt finished s =
    (s.opened ≡ s.closed)
    × (s.clients ≡ s.disconnected)
    × (s.mqtt_connected ≡ false)
    × (s.cancelled ≡ true)

abbrev pub InOrder : Supervisor → Type 0
InOrder s = InOrderAt s.phase s

after_loop-InOrder :
    (ver : ℕ) (e : End) (s : Supervisor) → InOrderAt (reading ver) s → InOrder (after_loop ver e s)
after_loop-InOrder ver stopped s (o, c, v) = (o, c, v)
after_loop-InOrder ver config_changed s (o, c, v) = (o, c, refl)
after_loop-InOrder ver read_failed s (o, c, v) = (o, c, v)

advance_at-InOrder :
    (p : Phase) (t : Turn) (s : Supervisor)
    → s.phase ≡ p
    → InOrderAt p s
    → InOrder (advance_at p t s)
unfolding advance_at
advance_at-InOrder outer t s e (o, c, m) = elim (Bool-cases s.cancelled) [
  | inl stop ↦ rw stop (o, c, m, refl)
  | inr live ↦ rw live (o, omega arith, omega arith)
]
advance_at-InOrder (inner ver) t s e (o, c, v) = elim (Bool-cases (goes_on ver s)) [
  | inl on ↦ elim (Bool-cases t.opens) [
    | inl device ↦ rw (on, device) (omega arith, c, v)
    | inr shut ↦ rw (on, shut) (subst (λ p. InOrderAt p s) (sym e) (o, c, v))
  ]
  | inr off ↦ rw off (o, c, refl)
]
advance_at-InOrder (reading ver) t s e h = after_loop-InOrder ver t.loop_end s h
advance_at-InOrder finished t s e h = subst (λ p. InOrderAt p s) (sym e) h

signal_at :
    (p : Phase) (s : Supervisor) → InOrderAt p s → InOrderAt p (record s { cancelled = true })
signal_at outer s h = h
signal_at (inner ver) s h = h
signal_at (reading ver) s h = h
signal_at finished s (o, c, m, k) = (o, c, m, refl)

update_at :
    (p : Phase) (s : Supervisor)
    → InOrderAt p s
    → InOrderAt p (record s { version = s.version + 1 })
update_at outer s h = h
update_at (inner ver) s (o, c, v) = (o, c, omega arith)
update_at (reading ver) s (o, c, v) = (o, c, omega arith)
update_at finished s h = h

Step-InOrder : {s s' : Supervisor} → Step s s' → InOrder s → InOrder s'
Step-InOrder (signal {s}) h = signal_at s.phase s h
Step-InOrder (update {s}) h = update_at s.phase s h
Step-InOrder (mark {s} {ver} b e) h =
    let at : InOrderAt (reading ver) s = subst (λ p. InOrderAt p s) e h in
    subst (λ p. InOrderAt p (record s { mqtt_connected = b })) (sym e) at
Step-InOrder (turn {s} t) h = unfold advance in advance_at-InOrder s.phase t s refl h

-- In every state that the program can reach, whatever signals, updates of the settings and failures
-- of the port or the broker come before it: the port is open within the read loop and nowhere else,
-- one client of the broker exists within the outer loop and none outside, the version in use is no newer
-- than the settings, and outside the status says that the broker is not connected.
pub Reachable-InOrder : {version : ℕ} {s : Supervisor} → Reachable version s → InOrder s
Reachable-InOrder start = (refl, refl, refl)
Reachable-InOrder (next r step) = Step-InOrder step (Reachable-InOrder r)

-- How many turns a place is away from the end.
abbrev turns_left : Phase → ℕ
turns_left finished = 0
turns_left outer = 1
turns_left (inner ver) = 2
turns_left (reading ver) = 3

turns_left-after_loop :
    (ver : ℕ) (e : End) (s : Supervisor)
    → ((after_loop ver e s).cancelled ≡ s.cancelled) × (turns_left (after_loop ver e s).phase ≤ 2)
turns_left-after_loop ver stopped s = (refl, omega arith)
turns_left-after_loop ver config_changed s = (refl, omega arith)
turns_left-after_loop ver read_failed s = (refl, omega arith)

turns_left-advance_at :
    (p : Phase) (t : Turn) (s : Supervisor)
    → s.phase ≡ p
    → s.cancelled ≡ true
    → ((advance_at p t s).cancelled ≡ s.cancelled)
      × (turns_left (advance_at p t s).phase ≤ turns_left p - 1)
unfolding advance_at
turns_left-advance_at outer t s e c = rw c (refl, omega arith)
turns_left-advance_at (inner ver) t s e c = rw c (refl, omega arith)
turns_left-advance_at (reading ver) t s e c = turns_left-after_loop ver t.loop_end s
turns_left-advance_at finished t s e c = (refl, rw e (omega arith))

turns_left-advance :
    (t : Turn) (s : Supervisor)
    → s.cancelled ≡ true
    → ((advance t s).cancelled ≡ true) × (turns_left (advance t s).phase ≤ turns_left s.phase - 1)
unfolding advance
turns_left-advance t s c =
    let (same, less) = turns_left-advance_at s.phase t s refl c in (same ∙ c, less)

turns_left-le : (p : Phase) → turns_left p ≤ 3
turns_left-le p = ground arith

turns_left-zero : (p : Phase) → turns_left p ≤ 0 → p ≡ finished
turns_left-zero p h = ground arith

-- Once the context is cancelled, three turns of the loop end the program, from every state that it can
-- reach and whatever those turns meet; a program that ended has closed every port that it opened,
-- disconnected every client that it made, and says so in the status.
pub shutdown :
    {version : ℕ} {s : Supervisor} (t1 t2 t3 : Turn)
    → Reachable version s
    → s.cancelled ≡ true
    → let last = advance t3 (advance t2 (advance t1 s)) in
      (last.phase ≡ finished)
      × (last.opened ≡ last.closed)
      × (last.clients ≡ last.disconnected)
      × (last.mqtt_connected ≡ false)
shutdown {s = s} t1 t2 t3 r c =
    let s1 = advance t1 s in
    let s2 = advance t2 s1 in
    let (c1, l1) = turns_left-advance t1 s c in
    let (c2, l2) = turns_left-advance t2 s1 c1 in
    let (c3, l3) = turns_left-advance t3 s2 c2 in
    let ends : (advance t3 s2).phase ≡ finished =
      turns_left-zero (advance t3 s2).phase (omega (arith, turns_left-le s.phase)) in
    let (ports, clients, flag, _) : InOrderAt finished (advance t3 s2) =
      subst (λ p. InOrderAt p (advance t3 s2)) ends
        (Reachable-InOrder (next (next (next r (turn t1)) (turn t2)) (turn t3))) in
    (ends, ports, clients, flag)
