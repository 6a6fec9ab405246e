-- ===== src/Router/States.antt =====
-- The connection's state and its callback (agent/agent/router.c: process_monitor_in_event).
use yella.Prelude.{
  ℕ, zero, suc, ◌<◌, ◌^◌, ◌≡◌, ◌≢◌, refl, sym, ap, ◌∙◌, true, false, List, [], ◌∷◌, ◌++◌, Option,
  none, some, arith, length, take, take-append, length-append, ==_iff, Bool-cases, inl, inr, All,
  if◌then◌else◌,
}
use yella.Spool.Event.{Bytes, bytes_of, value_of, length-bytes_of, value_of-bytes_of_two}
use yella.Spool.State.{Rc, no_error}
use yella.Router.{
  RouterState, state_eq, Router, Inbox, EventIds, set_state, state_of_event, set_state_of,
  read_monitor_event, handle_monitor_event, process_monitor_in_event, is_ok,
}

-- An event of the monitor and the two parts in which it comes.
pub record MonitorEvent : Type 0 where
  pub id : ℕ
  pub value : ℕ
  pub endpoint : Bytes

unfoldable pub arrivals : List MonitorEvent → Inbox
arrivals [] = []
arrivals (e ∷ es) =
    some (record { bytes = bytes_of 2 e.id ++ bytes_of 4 e.value; more = true })
    ∷ some (record { bytes = e.endpoint; more = false })
    ∷ arrivals es

-- So many events are handled, up to the first error.
unfoldable pub monitor_all : EventIds → Router → ℕ → Inbox → Rc × Router × Inbox
monitor_all ids r zero inbox = (no_error, r, inbox)
monitor_all ids r (suc n) inbox =
    let (rc, r', rest) = process_monitor_in_event ids r inbox in
    let next = monitor_all ids r' n rest in if is_ok rc then next else (rc, r', rest)

-- The state after some events: that of the last one which sets any.
abbrev pub replaced : RouterState → Option RouterState → RouterState
replaced st none = st
replaced st (some st') = st'

unfoldable pub last_state : EventIds → RouterState → List MonitorEvent → RouterState
last_state ids st [] = st
last_state ids st (e ∷ es) = last_state ids (replaced st (state_of_event ids e.id)) es

-- No state follows itself.
abbrev pub Alternates : RouterState → List RouterState → Type 0
Alternates st [] = Unit
Alternates st (s ∷ ss) = (st ≢ s) × Alternates s ss

abbrev pub last_of : RouterState → List RouterState → RouterState
last_of st [] = st
last_of st (s ∷ ss) = last_of s ss

-- The callback was told of every change since a state.
pub record Follows (st : RouterState) (r : Router) : Type 0 where
  pub set : r.state_callback ≡ true
  pub alternates : Alternates st r.reported
  pub last : last_of st r.reported ≡ r.state

pub false≢true : false ≢ true
false≢true e = ground arith

Alternates-append :
    (st s : RouterState) (ss : List RouterState)
    → Alternates st ss
    → last_of st ss ≢ s
    → Alternates st (ss ++ s ∷ [])
Alternates-append st s [] h n = (n, tt)
Alternates-append st s (x ∷ ss) h n = (h.0, Alternates-append x s ss h.1 n)

last_of-append : (st s : RouterState) (ss : List RouterState) → last_of st (ss ++ s ∷ []) ≡ s
last_of-append st s [] = refl
last_of-append st s (x ∷ ss) = last_of-append x s ss

pub state_eq-to : (a b : RouterState) → state_eq a b ≡ true → a ≡ b
unfolding state_eq
state_eq-to a b h = ground arith

state_eq_refl : (a : RouterState) → state_eq a a ≡ true
unfolding state_eq
state_eq_refl a = ground arith

set_state_lem : (r : Router) (s : RouterState) → (set_state r s).state ≡ s
unfolding set_state
set_state_lem r s = elim (Bool-cases (state_eq r.state s)) [
  | inl h ↦ rw h (state_eq-to r.state s h)
  | inr h ↦ rw h refl
]

set_state-Follows : (st s : RouterState) (r : Router) → Follows st r → Follows st (set_state r s)
unfolding set_state
set_state-Follows st s r f = elim (Bool-cases (state_eq r.state s)) [
  | inl h ↦ rw h f
  | inr h ↦
      (let new : last_of st r.reported ≢ s = λ e.
          false≢true
            (sym h ∙ ap (state_eq r.state) (sym (sym f.last ∙ e)) ∙ state_eq_refl r.state) in
        rw (h, f.set)
          (record {
            set = refl;
            alternates = Alternates-append st s r.reported f.alternates new;
            last = last_of-append st s r.reported;
          }))
]

set_state_of-Follows :
    (st : RouterState) (o : Option RouterState) (r : Router)
    → Follows st r
    → Follows st (set_state_of r o)
unfolding set_state_of
set_state_of-Follows st none r f = f
set_state_of-Follows st (some s) r f = set_state-Follows st s r f

set_state_of_lem :
    (r : Router) (o : Option RouterState) → (set_state_of r o).state ≡ replaced r.state o
unfolding set_state_of
set_state_of_lem r none = refl
set_state_of_lem r (some s) = set_state_lem r s

module _ (ids : EventIds) where
  monitor_one :
      (e : MonitorEvent) (es : List MonitorEvent) (r : Router) (rest : Inbox)
      → e.id < 2 ^ 16
      → process_monitor_in_event ids r (arrivals (e ∷ es) ++ rest)
        ≡ (no_error, set_state_of r (state_of_event ids e.id), arrivals es ++ rest)
  unfolding process_monitor_in_event read_monitor_event handle_monitor_event arrivals
  monitor_one e es r rest small =
      let two = bytes_of 2 e.id in
      let four = bytes_of 4 e.value in
      let six : length (two ++ four) ≡ 6 =
        omega (arith, length-append two four, length-bytes_of 2 e.id, length-bytes_of 4 e.value) in
      let number : value_of (take 2 (two ++ four)) ≡ e.id =
        ap value_of (take-append two four 2 (sym (length-bytes_of 2 e.id)))
        ∙ value_of-bytes_of_two e.id small in
      rw ((==_iff (length (two ++ four)) 6).1 six)
        (ap (λ n. (no_error, set_state_of r (state_of_event ids n), arrivals es ++ rest)) number)

  abbrev pub Monitored :
      RouterState → Router → List MonitorEvent → Inbox → Rc × Router × Inbox → Type 0
  Monitored st r es rest (rc, r', rest') =
      (rc ≡ no_error) × (rest' ≡ rest) × (r'.state ≡ last_state ids r.state es) × Follows st r'

  -- Whatever events of the monitor arrive, with 16-bit numbers: they are all read and nothing behind
  -- them is, the router's state is then that of the last event that sets one, and the state
  -- callback, once set, is called with each new state in turn: no state is reported twice in a row,
  -- and the last one reported is the router's state.
  pub monitor_all_lem :
      (es : List MonitorEvent) (st : RouterState) (r : Router) (rest : Inbox)
      → All (λ (e : MonitorEvent). e.id < 2 ^ 16) es
      → Follows st r
      → Monitored st r es rest (monitor_all ids r (length es) (arrivals es ++ rest))
  unfolding monitor_all last_state arrivals is_ok
  monitor_all_lem [] st r rest small f = (refl, refl, refl, f)
  monitor_all_lem (e ∷ es) st r rest small f =
      let r1 = set_state_of r (state_of_event ids e.id) in
      let (ok, left, last, follows) =
        monitor_all_lem es st r1 rest small.1 (set_state_of-Follows st _ r f) in
      rw (monitor_one e es r rest small.0)
        (ok, left, last ∙ ap (λ t. last_state ids t es) (set_state_of_lem r _), follows)
