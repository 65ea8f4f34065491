-- ===== src/Scan/Lifecycle.antt =====
-- What the transition table of pkg/scan/state.go allows.
use cafe_persistence.Prelude.{
  String, ◌≡◌, refl, sym, ◌⊎◌, inl, inr, true, false, ◌||◌, ◌↔◌, ◌≤◌, length, List, [], ◌∷◌, arith,
  str_eq, str_eq_iff,
}
use cafe_persistence.Scan.{
  pending, running, success, failed, timeout, unreachable, valid_transition, is_terminal,
  logical_state,
}

pub is_terminal-cases :
    (s : String)
    → is_terminal s ≡ true
    → (s ≡ success) ⊎ ((s ≡ failed) ⊎ ((s ≡ timeout) ⊎ (s ≡ unreachable)))
unfolding is_terminal
is_terminal-cases s h = ground (
  arith,
  str_eq_iff s success,
  str_eq_iff s failed,
  str_eq_iff s timeout,
  str_eq_iff s unreachable,
)

terminal_refused :
    (s t : String)
    → (s ≡ success) ⊎ ((s ≡ failed) ⊎ ((s ≡ timeout) ⊎ (s ≡ unreachable)))
    → valid_transition s t ≡ false
unfolding valid_transition
terminal_refused s t (inl e) = rw e (ground arith)
terminal_refused s t (inr (inl e)) = rw e (ground arith)
terminal_refused s t (inr (inr (inl e))) = rw e (ground arith)
terminal_refused s t (inr (inr (inr e))) = rw e (ground arith)

-- No transition leaves a terminal state.
pub terminal_absorbs : (s t : String) → is_terminal s ≡ true → valid_transition s t ≡ false
terminal_absorbs s t h = terminal_refused s t (is_terminal-cases s h)

-- The steps of a scan's life: it starts to run once, and it ends from PENDING or RUNNING.
pub data Edge (s t : String) : Type 0 where
  starts : logical_state s ≡ pending → t ≡ running → Edge s t
  ends : (logical_state s ≡ pending) ⊎ (logical_state s ≡ running) → is_terminal t ≡ true → Edge s t

valid_cases :
    (s t : String)
    → valid_transition s t ≡ true
    → ((t ≡ running) × (logical_state s ≡ pending))
      ⊎ ((is_terminal t ≡ true) × ((logical_state s ≡ pending) ⊎ (logical_state s ≡ running)))
unfolding valid_transition is_terminal
valid_cases s t h = ground (
  arith,
  str_eq_iff t running,
  str_eq_iff (logical_state s) pending,
  str_eq_iff (logical_state s) running,
)

live_tests :
    (l : String) → (l ≡ pending) ⊎ (l ≡ running) → (str_eq l running || str_eq l pending) ≡ true
live_tests l (inl e) = rw e refl
live_tests l (inr e) = rw e refl

terminal_tests :
    (t : String)
    → (t ≡ success) ⊎ ((t ≡ failed) ⊎ ((t ≡ timeout) ⊎ (t ≡ unreachable)))
    → str_eq t running ≡ false
terminal_tests t (inl e) = rw e refl
terminal_tests t (inr (inl e)) = rw e refl
terminal_tests t (inr (inr (inl e))) = rw e refl
terminal_tests t (inr (inr (inr e))) = rw e refl

Edge-valid_transition : (s t : String) → Edge s t → valid_transition s t ≡ true
unfolding valid_transition is_terminal
Edge-valid_transition s t (starts e f) = rw (e, f) refl
Edge-valid_transition s t (ends live over) =
    ground
      (arith, over, live_tests (logical_state s) live, terminal_tests t (is_terminal-cases t over))

Edge-cases :
    (s t : String)
    → ((t ≡ running) × (logical_state s ≡ pending))
      ⊎ ((is_terminal t ≡ true) × ((logical_state s ≡ pending) ⊎ (logical_state s ≡ running)))
    → Edge s t
Edge-cases s t (inl (f, e)) = Edge.starts e f
Edge-cases s t (inr (over, live)) = Edge.ends live over

-- The test of a transition decides the relation: a scan may start to run from PENDING, which the
-- empty state stands for, and may end from PENDING or RUNNING, and nothing else is allowed.
pub valid_transition-Edge : (s t : String) → (valid_transition s t ≡ true) ↔ Edge s t
valid_transition-Edge s t = (λ h. Edge-cases s t (valid_cases s t h), Edge-valid_transition s t)

-- the states after `s`, each by an allowed transition
pub data Lives : String → List String → Type 0 where
  stays : {s : String} → Lives s []
  moves :
      {s t : String} {ts : List String}
      → valid_transition s t ≡ true
      → Lives t ts
      → Lives s (t ∷ ts)

no_more : (s : String) (ts : List String) → is_terminal s ≡ true → Lives s ts → length ts ≤ 0
no_more s [] over l = omega arith
no_more s (t ∷ ts) over (moves h l) = cc (terminal_absorbs s t over)

running_ends : (t : String) → valid_transition running t ≡ true → is_terminal t ≡ true
unfolding valid_transition is_terminal
running_ends t h = ground (arith, h)

running_briefly : (s : String) (ts : List String) → s ≡ running → Lives s ts → length ts ≤ 1
running_briefly s [] e l = omega arith
running_briefly s (t ∷ ts) e (moves h l) =
    ground (arith, no_more t ts (running_ends t (rw (sym e) h)) l)

-- However a scan begins, it makes at most two allowed transitions.
pub at_most_two_steps : (s : String) (ts : List String) → Lives s ts → length ts ≤ 2
at_most_two_steps s [] l = omega arith
at_most_two_steps s (t ∷ ts) (moves h l) = elim (valid_cases s t h) [
  | inl (e, _) ↦ ground (arith, running_briefly t ts e l)
  | inr (over, _) ↦ ground (arith, no_more t ts over l)
]
