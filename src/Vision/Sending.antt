-- ===== src/Vision/Sending.antt =====
-- Connecting and sending by VisionCom/Src/VisionTcpClient.cpp.
use vision_motion_framework.Prelude.{
  ℕ, zero, suc, ◌+◌, ◌-◌, ◌%◌, ◌^◌, ◌≤◌, ◌<◌, ◌≡◌, refl, ap, sym, ◌∙◌, ◌↔◌, ◌⊎◌, inl, inr, Bool,
  true, false, ltb, Bool-cases, ltb→lt, ltb→ge, lt→ltb, none, some, List, [], ◌∷◌, ◌++◌, length,
  take, drop, ℤ, pos, arith, take-length, ◌≢◌,
}
use vision_motion_framework.Vision.Packet.{SecsPacket, to_byte_array, length-to_byte_array}
use vision_motion_framework.Vision.Client.{
  int_size, Client, ConnectOutcome, no_socket, refused, established, ListenOutcome,
  no_listen_socket, bind_failed, listen_failed, accept_failed, accepted, connect, Sent, send_failed,
  taken, send_loop, send, send_packet_async, vision_ok,
}

take-nil : (n : ℕ) → take {A = ℕ} n [] ≡ []
take-nil zero = refl
take-nil (suc n) = refl

-- No byte is lost between two steps of the loop.
take-add : (n k : ℕ) (xs : List ℕ) → take n xs ++ take k (drop n xs) ≡ take (n + k) xs
take-add zero k xs = let e : zero + k ≡ k = omega arith in rw e refl
take-add (suc n) k [] = take-nil k ∙ sym (take-nil (suc n + k))
take-add (suc n) k (x ∷ xs) =
    let e : suc n + k ≡ suc (n + k) = omega arith in rw e (ap (◌∷◌ x) (take-add n k xs))

-- What every call of the system's `send` does that accepts at least one byte and no more than asked.
abbrev pub Accepts : (ℕ → ℕ → Sent) → Type 0
Accepts os =
    (offset left : ℕ) → 0 < left → (k : ℕ) × (os offset left ≡ taken k) × (0 < k) × (k ≤ left)

send_loop-Accepts :
    (fuel : ℕ) (os : ℕ → ℕ → Sent) (bytes : List ℕ) (total : ℕ)
    → Accepts os
    → total ≤ length bytes
    → length bytes - total < fuel
    → send_loop fuel os (length bytes) bytes total (take total bytes)
      ≡ some (pos (length bytes), bytes)
unfolding send_loop
send_loop-Accepts zero os bytes total acc within enough = absurd (omega arith)
send_loop-Accepts (suc fuel) os bytes total acc within enough =
    elim (Bool-cases (ltb total (length bytes))) [
      | inl more ↦
          let (k, e, some_byte, fits) =
            acc total (length bytes - total) (omega (arith, ltb→lt _ _ more)) in
          rw (more, send_loop)
            (rw (e, send_loop)
              (rw (take-add total k bytes) (
                send_loop-Accepts fuel os bytes (total + k) acc (omega arith)
                  (omega (arith, ltb→lt _ _ more)))))
      | inr done ↦
          let all : total ≡ length bytes = omega (arith, ltb→ge _ _ done) in
          rw (done, send_loop) (ground (arith, all, take-length bytes, ap (λ m. take m bytes) all))
    ]

int_size-lt : (n : ℕ) → n < 2 ^ 31 → int_size n ≡ n
unfolding int_size
int_size-lt n small =
    let low : n % 2 ^ 32 ≡ n = omega (arith, small) in rw (low, lt→ltb n (2 ^ 31) small) refl

-- If the system takes at least one byte at each call, however few, then a packet of fewer than 2 ^ 31 bytes
-- that is sent on a connected client arrives whole and in order, and the result is OK. The fuel exceeds
-- the packet's bytes.
pub send_packet_async-Accepts :
    (fuel : ℕ) (os : ℕ → ℕ → Sent) (p : SecsPacket) (c : Client)
    → Accepts os
    → c.connected ≡ true
    → length (to_byte_array p) < 2 ^ 31
    → length (to_byte_array p) < fuel
    → send_packet_async fuel os p (some c) ≡ some (vision_ok, to_byte_array p)
unfolding send_packet_async
send_packet_async-Accepts fuel os p c acc on small enough =
    rw (on, send_packet_async)
      (rw (on, send)
        (rw (int_size-lt (length (to_byte_array p)) small) (
          rw (send_loop-Accepts fuel os (to_byte_array p) 0 acc (omega arith) (omega arith)) (
            rw (lt→ltb 0 (length (to_byte_array p)) (omega (arith, length-to_byte_array p)))
              refl))))

Sent-cases : (s : Sent) → ((err : ℕ) × (s ≡ send_failed err)) ⊎ ((k : ℕ) × (s ≡ taken k))
Sent-cases (send_failed err) = inl (err, refl)
Sent-cases (taken k) = inr (k, refl)

-- A step of the loop ends it, or goes on behind the bytes that the system took.
send_loop_step :
    (fuel : ℕ) (os : ℕ → ℕ → Sent) (size : ℕ) (bytes : List ℕ) (total : ℕ) {ret : ℤ}
    {sent wire : List ℕ}
    → send_loop (suc fuel) os size bytes total sent ≡ some (ret, wire)
    → (wire ≡ sent)
      ⊎ ((k : ℕ) × (send_loop fuel os size bytes (total + k) (sent ++ take k (drop total bytes))
            ≡ some (ret, wire)))
unfolding send_loop
send_loop_step fuel os size bytes total e = elim (Bool-cases (ltb total size)) [
  | inr done ↦ inl (ground arith)
  | inl more ↦ elim (Sent-cases (os total (size - total))) [
    | inl (err, s) ↦ inl (ground arith)
    | inr (k, s) ↦ inr (k, ground arith)
  ]
]

-- Whatever the system does, the bytes that it took are a beginning of the packet.
send_loop-prefix :
    (fuel : ℕ) (os : ℕ → ℕ → Sent) (size : ℕ) (bytes : List ℕ) (total : ℕ) {ret : ℤ} {wire : List ℕ}
    → send_loop fuel os size bytes total (take total bytes) ≡ some (ret, wire)
    → (m : ℕ) × (wire ≡ take m bytes)
unfolding send_loop
send_loop-prefix zero os size bytes total e = cc
send_loop-prefix (suc fuel) os size bytes total {ret} {wire} e =
    elim (send_loop_step fuel os size bytes total e) [
      | inl here ↦ (total, here)
      | inr (k, next) ↦
          send_loop-prefix fuel os size bytes (total + k) (rw (take-add total k bytes) at next)
    ]

-- Whether the calls of the system succeed that `Connect` makes for this type of socket.
abbrev Succeeds : ℕ → ConnectOutcome → ListenOutcome → Type 0
Succeeds zero (established s) l = Unit {0}
Succeeds zero (no_socket err) l = ⊥
Succeeds zero (refused s err) l = ⊥
Succeeds (suc t) c (accepted s peer) = Unit {0}
Succeeds (suc t) c (no_listen_socket err) = ⊥
Succeeds (suc t) c (bind_failed s err) = ⊥
Succeeds (suc t) c (listen_failed s err) = ⊥
Succeeds (suc t) c (accept_failed s err) = ⊥

abbrev error_of : ConnectOutcome → ℕ
error_of (no_socket err) = err
error_of (refused s err) = err
error_of (established s) = 1

abbrev listen_error_of : ListenOutcome → ℕ
listen_error_of (no_listen_socket err) = err
listen_error_of (bind_failed s err) = err
listen_error_of (listen_failed s err) = err
listen_error_of (accept_failed s err) = err
listen_error_of (accepted s peer) = 1

record Connects (ok : Bool) (c : Client) : Type 0 where
  pub flags : (c.connected ≡ ok) × (c.running ≡ ok)
  pub open_socket : ok ≡ true → (s : ℕ) × (c.sock ≡ some s)
  pub no_leak : ok ≡ false → (c.sock ≡ none) × (c.listen_sock ≡ none)

-- `Connect` succeeds exactly when the system's calls do. It then leaves a socket and all flags up;
-- when it fails, no socket is open and the client is not connected. Error numbers are not 0.
connect-Connects :
    (socket_type : ℕ) (out_c : ConnectOutcome) (out_l : ListenOutcome) (c : Client)
    → error_of out_c ≢ 0
    → listen_error_of out_l ≢ 0
    → Connects (connect socket_type out_c out_l c).0 (connect socket_type out_c out_l c).1
      × (((connect socket_type out_c out_l c).0 ≡ true) ↔ Succeeds socket_type out_c out_l)
unfolding connect
connect-Connects zero (established s) l c h k = (
  record { flags = ground arith; open_socket = λ e. (s, refl); no_leak = ground arith },
  ground arith,
)
connect-Connects zero (no_socket err) l c h k = (
  record { flags = ground arith; open_socket = λ e. absurd (ground arith); no_leak = ground arith },
  ground arith,
)
connect-Connects zero (refused s err) l c h k = (
  record { flags = ground arith; open_socket = λ e. absurd (ground arith); no_leak = ground arith },
  ground arith,
)
connect-Connects (suc t) o (accepted s peer) c h k = (
  record { flags = ground arith; open_socket = λ e. (peer, ground arith); no_leak = ground arith },
  ground arith,
)
connect-Connects (suc t) o (no_listen_socket err) c h k = (
  record { flags = ground arith; open_socket = λ e. absurd (ground arith); no_leak = ground arith },
  ground arith,
)
connect-Connects (suc t) o (bind_failed s err) c h k = (
  record { flags = ground arith; open_socket = λ e. absurd (ground arith); no_leak = ground arith },
  ground arith,
)
connect-Connects (suc t) o (listen_failed s err) c h k = (
  record { flags = ground arith; open_socket = λ e. absurd (ground arith); no_leak = ground arith },
  ground arith,
)
connect-Connects (suc t) o (accept_failed s err) c h k = (
  record { flags = ground arith; open_socket = λ e. absurd (ground arith); no_leak = ground arith },
  ground arith,
)
