-- ===== src/Fetch/Gate.antt =====
-- gatedTransport of internal/fetch/fetch.go: the budget of a host, two open answers at a time, and
-- its circuit breaker, as steps on the state of one host. `blocked`, the slot and the outcome are
-- steps of their own, since requests to one host interleave.
use shadow_relay.Prelude.{
  ℕ, suc, ◌+◌, ◌-◌, ◌≤◌, ◌<◌, Bool, true, false, ◌&&◌, List, [], ◌∷◌, ltb, leb, if◌then◌else◌, ◌≡◌,
  refl, arith,
}

-- `hostState`, with the numbers of requests that wait for a slot, of those that have one and wait
-- for their answer, and of answers whose bodies are open. Times are in seconds, 0 for the zero
-- time.
pub record Host : Type 0 where
  pub waiting : ℕ
  pub asking : ℕ
  pub open_bodies : ℕ
  pub failures : ℕ
  pub until : ℕ

abbrev pub new_host : Host
new_host = record { waiting = 0; asking = 0; open_bodies = 0; failures = 0; until = 0 }

-- The slots that are taken, of the two that `make(chan struct{}, 2)` has.
abbrev pub taken : Host → ℕ
taken h = h.asking + h.open_bodies

-- `time.Now().Before(h.until)`: a request that is not refused goes on to wait.
unfoldable pub is_open_circuit : ℕ → Host → Bool
is_open_circuit now h = ltb now h.until

unfoldable pub admitted : Host → Host
admitted h = record h { waiting = suc h.waiting }

-- Is there a free slot for one that waits?
unfoldable pub can_enter : Host → Bool
can_enter h = ltb 0 h.waiting && ltb (taken h) 2

-- `h.slots <- struct{}{}`
unfoldable pub entered : Host → Host
entered h = record h { waiting = h.waiting - 1; asking = suc h.asking }

-- The outcome of `base.RoundTrip`: an error, or the status of an answer.
pub data Reply : Type 0 where
  unreachable : Reply
  status : ℕ → Reply

unfoldable pub is_failure : Reply → Bool
is_failure unreachable = true
is_failure (status n) = leb 500 n

-- The failures, and until when the circuit is open.
unfoldable pub noted : ℕ → Reply → Host → Host
noted now r h =
    if is_failure r
    then (let n = suc h.failures in
        record h { failures = n; until = if leb 3 n then now + 60 else h.until })
    else record h { failures = 0; until = 0 }

-- An error gives its slot back at once, an answer when its body is closed.
unfoldable pub settled : Reply → Host → Host
settled unreachable h = record h { asking = h.asking - 1 }
settled (status n) h = record h { asking = h.asking - 1; open_bodies = suc h.open_bodies }

-- What happens at a host: a request is admitted, gets a slot, or is cancelled while it waits; its
-- answer comes; and an open body is closed, once (`sync.Once`).
pub data GateStep : Host → Host → Type 0 where
  admitting : (now : ℕ) (h : Host) → is_open_circuit now h ≡ false → GateStep h (admitted h)
  entering : (h : Host) → can_enter h ≡ true → GateStep h (entered h)
  cancelling : (h : Host) → 0 < h.waiting → GateStep h (record h { waiting = h.waiting - 1 })
  ending : (now : ℕ) (r : Reply) (h : Host) → 0 < h.asking → GateStep h (settled r (noted now r h))
  closing :
      (h : Host) → 0 < h.open_bodies → GateStep h (record h { open_bodies = h.open_bodies - 1 })

pub data GateSteps : Host → Host → Type 0 where
  start : (h : Host) → GateSteps h h
  next : (h g f : Host) → GateSteps h g → GateStep g f → GateSteps h f

-- Within the budget, and open only after three failures.
abbrev IsWithin : Host → Type 0
IsWithin h = (taken h ≤ 2) × (0 < h.until → 3 ≤ h.failures)

-- The outcomes at a host, the last one first, and the state that they leave.
unfoldable pub after_replies : List (ℕ × Reply) → Host
after_replies [] = new_host
after_replies ((now, r) ∷ past) = noted now r (after_replies past)

-- Were the last three outcomes failures?
unfoldable pub failed_thrice : List (ℕ × Reply) → Bool
failed_thrice ((_, r) ∷ (_, s) ∷ (_, t) ∷ past) = is_failure r && is_failure s && is_failure t
failed_thrice past = false

-- When was the last outcome?
unfoldable pub last_time : List (ℕ × Reply) → ℕ
last_time [] = 0
last_time ((now, r) ∷ past) = now

-- The failures since the last success.
unfoldable streak : List (ℕ × Reply) → ℕ
streak [] = 0
streak ((now, r) ∷ past) = let n = streak past in if is_failure r then suc n else 0

failures-streak : (past : List (ℕ × Reply)) → (after_replies past).failures ≡ streak past
unfolding after_replies streak noted
failures-streak [] = refl
failures-streak ((now, r) ∷ past) = ground (arith, failures-streak past)

streak-failed_thrice : (past : List (ℕ × Reply)) → leb 3 (streak past) ≡ failed_thrice past
unfolding streak failed_thrice
streak-failed_thrice [] = refl
streak-failed_thrice ((_, r) ∷ []) = ground arith
streak-failed_thrice ((_, r) ∷ (_, s) ∷ []) = ground arith
streak-failed_thrice ((_, r) ∷ (_, s) ∷ (_, t) ∷ past) = ground arith

until_eq :
    (past : List (ℕ × Reply))
    → (after_replies past).until ≡ (if leb 3 (streak past) then last_time past + 60 else 0)
unfolding after_replies streak noted last_time
until_eq [] = refl
until_eq ((now, r) ∷ past) = ground (arith, until_eq past, failures-streak past)

-- the circuit of a host is open exactly where the last three outcomes at it were failures and the
-- last of them is less than a minute ago.
pub open_circuit_iff :
    (past : List (ℕ × Reply)) (now : ℕ)
    → is_open_circuit now (after_replies past)
      ≡ (failed_thrice past && ltb now (last_time past + 60))
unfolding is_open_circuit
open_circuit_iff past now = ground (arith, until_eq past, streak-failed_thrice past)
