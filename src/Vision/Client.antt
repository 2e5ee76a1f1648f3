-- ===== src/Vision/Client.antt =====
-- The connection and the sending side of VisionCom/Src/VisionTcpClient.cpp, and the calls of them in
-- VisionCom/Src/VisionController.cpp. What the socket calls of the system do is an argument; error
-- numbers are those of `WSAGetLastError`. The receiving side is in Vision/Link.antt.
use vision_motion_framework.Prelude.{
  ℕ, zero, suc, ◌+◌, ◌-◌, ◌%◌, ◌^◌, Bool, true, false, ltb, ltb_ℤ, if◌then◌else◌, ◌==◌, Option,
  none, some, List, [], ◌++◌, length, take, drop, ℤ, pos, neg,
}
use vision_motion_framework.Vision.Packet.{SecsPacket, to_byte_array}

-- A socket is a handle, and `none` is INVALID_SOCKET.
pub record Client : Type 0 where
  pub sock : Option ℕ
  pub listen_sock : Option ℕ
  pub running : Bool
  pub connected : Bool
  pub callback_enabled : Bool

unfoldable pub cleanup_socket : Client → Client
cleanup_socket c = record c { running = false; connected = false; sock = none; listen_sock = none }

-- What `socket` and `connect` do.
pub data ConnectOutcome : Type 0 where
  no_socket : ℕ → ConnectOutcome
  refused : ℕ → ℕ → ConnectOutcome
  established : ℕ → ConnectOutcome

-- The flags that are set when a connection stands.
abbrev go_online : Client → Client
go_online c = record c { connected = true; running = true; callback_enabled = true }

unfoldable pub create_and_connect : ConnectOutcome → Client → ℕ × Client
unfolding cleanup_socket
create_and_connect (no_socket err) c = (err, cleanup_socket c)
create_and_connect (refused s err) c =
    (err, cleanup_socket (record (cleanup_socket c) { sock = some s }))
create_and_connect (established s) c = (0, go_online (record (cleanup_socket c) { sock = some s }))

-- What `socket`, `bind`, `listen` and `accept` do.
pub data ListenOutcome : Type 0 where
  no_listen_socket : ℕ → ListenOutcome
  bind_failed : ℕ → ℕ → ListenOutcome
  listen_failed : ℕ → ℕ → ListenOutcome
  accept_failed : ℕ → ℕ → ListenOutcome
  accepted : ℕ → ℕ → ListenOutcome

abbrev listening : ℕ → Client → Client
listening s c = record (cleanup_socket c) { listen_sock = some s }

unfoldable pub create_and_listen : ListenOutcome → Client → ℕ × Client
unfolding cleanup_socket
create_and_listen (no_listen_socket err) c = (err, cleanup_socket c)
create_and_listen (bind_failed s err) c = (err, cleanup_socket (listening s c))
create_and_listen (listen_failed s err) c = (err, cleanup_socket (listening s c))
create_and_listen (accept_failed s err) c = (err, cleanup_socket (listening s c))
create_and_listen (accepted s peer) c = (0, go_online (record (listening s c) { sock = some peer }))

-- `Connect`, by the socket type 0 as a client and by any other as a server.
unfoldable pub connect : ℕ → ConnectOutcome → ListenOutcome → Client → Bool × Client
unfolding create_and_connect create_and_listen
connect socket_type out_c out_l c =
    let (ret, c') =
      if socket_type == 0 then create_and_connect out_c c else create_and_listen out_l c in
    if ret == 0 then (true, record c' { connected = true }) else (false, c')

unfoldable pub disconnect : Client → Client
unfolding cleanup_socket
disconnect c = cleanup_socket c

-- What one `send` of the system returns: an error, or how many bytes it took.
pub data Sent : Type 0 where
  send_failed : ℕ → Sent
  taken : ℕ → Sent

-- `static_cast<int>` of a size: its low 32 bits, signed. A negative size ends the loop of `Send` before its
-- first round, with nothing sent, as the size 0 does; so it is written as 0.
unfoldable pub int_size : ℕ → ℕ
int_size n = let m = n % 2 ^ 32 in if ltb m (2 ^ 31) then m else 0

-- The loop of `Send` up to `totalSize`: the return value, and all bytes that the system took. `os` is asked
-- with the offset and the number of bytes that are left.
unfoldable pub send_loop : ℕ → (ℕ → ℕ → Sent) → ℕ → List ℕ → ℕ → List ℕ → Option (ℤ × List ℕ)
send_loop zero os size bytes total wire = none
send_loop (suc fuel) os size bytes total wire = elim (ltb total size) [
  | false ↦ some (pos total, wire)
  | true ↦ elim (os total (size - total)) [
    | send_failed err ↦ some (neg err, wire)
    | taken k ↦ send_loop fuel os size bytes (total + k) (wire ++ take k (drop total bytes))
  ]
]

unfoldable pub send : ℕ → (ℕ → ℕ → Sent) → List ℕ → Client → Option (ℤ × List ℕ)
send fuel os bytes c = elim c.connected [
  | true ↦ send_loop fuel os (int_size (length bytes)) bytes 0 []
  | false ↦ some (neg 1, [])
]

pub data VisionStatus : Type 0 where
  vision_ok vision_not_initialized vision_failed vision_connection_failed : VisionStatus

abbrev status_of : Option (ℤ × List ℕ) → Option (VisionStatus × List ℕ)
status_of none = none
status_of (some (ret, wire)) = some (if ltb_ℤ (pos 0) ret then vision_ok else vision_failed, wire)

-- `SendPacketAsync`; `none` for the client is a controller without a transport.
unfoldable pub send_packet_async :
    ℕ → (ℕ → ℕ → Sent) → SecsPacket → Option Client → Option (VisionStatus × List ℕ)
unfolding send
send_packet_async fuel os p none = some (vision_not_initialized, [])
send_packet_async fuel os p (some c) = elim c.connected [
  | true ↦ status_of (send fuel os (to_byte_array p) c)
  | false ↦ some (vision_connection_failed, [])
]
