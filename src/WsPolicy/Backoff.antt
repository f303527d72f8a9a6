-- ===== src/WsPolicy/Backoff.antt =====
-- The reconnect delays of client/src/lib/ws-policy.ts.
use native.Mathlib.Nat.{pow-le-pow_right}
use coachman.Common.{ℕ, ◌-◌, ◌≤◌, ◌^◌, min, arith}
use coachman.WsPolicy.{reconnect_delay_ms}

-- Later attempts never wait less, and no attempt waits more than eight seconds.
reconnect_delay_ms_mono :
    (a b : ℕ)
    → a ≤ b
    → (reconnect_delay_ms a ≤ reconnect_delay_ms b) × (reconnect_delay_ms b ≤ 8000)
unfolding reconnect_delay_ms
reconnect_delay_ms_mono a b h =
    let p : 2 ^ min (a - 2) 8 ≤ 2 ^ min (b - 2) 8 = pow-le-pow_right (omega arith) (omega arith) in
    ground arith
