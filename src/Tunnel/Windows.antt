-- ===== src/Tunnel/Windows.antt =====
-- node/tun/tun_win.go: the tunnel on Windows, which several goroutines use at once while another closes
-- it. A goroutine goes from one use of what they share to the next in one step; the adapter and the ring
-- of packets are those of wintun, whose answers the steps take.
pub mod Count
pub mod Threads
pub mod Sound
pub mod Signalled
pub mod Draining
use zeronet.Prelude.{
  entry, change, ℕ, zero, suc, ◌+◌, List, [], ◌∷◌, String, Bool, true, false, Option, none, some,
  length, take, if◌then◌else◌, ◌||◌,
}
use zeronet.Go.{Result, ok, err}
use Prim.Native.String.{◌++◌}

-- What wintun answers to `ReceivePacket` and to `AllocateSendPacket`.
pub data Received : Type 0 where
  packet : List ℕ → Received
  no_more_items receive_eof invalid_data : Received
  receive_failure : String → Received

pub data Allocated : Type 0 where
  allocated allocate_eof buffer_overflow : Allocated
  allocate_failure : String → Allocated

-- What the system answers, to whichever call a step makes. `event_stays` says that a wait which ends
-- leaves the event set, as it does where the event is not reset by the wait.
pub record Windows : Type 0 where
  pub receive_packet : Received
  pub allocate_send_packet : Allocated
  pub adapter_luid : ℕ
  pub close_adapter : Option String
  pub event_stays : Bool

-- What a method returns.
pub data Reply : Type 0 where
  idle err_closed : Reply
  read_bytes : List ℕ → Reply
  written luid : ℕ → Reply
  failure : String → Reply
  closed : Option String → Reply

-- Where `Close` is, inside of `closeOnce.Do`.
pub data Stage : Type 0 where
  storing signalling waiting ending freeing : Stage
  leaving : Option String → Stage

pub data Once : Type 0 where
  unused finished : Once
  doing : Stage → Once

-- The fields that change, whether the session and the adapter are gone, and whether the event `readWait`
-- is set. `running` is the counter of the wait group.
pub record WinTun : Type 0 where
  pub close : Bool
  pub close_once : Once
  pub running : ℕ
  pub write_lock : Bool
  pub session_ended : Bool
  pub adapter_closed : Bool
  pub event_set : Bool

-- Where a goroutine is: in `Read` with the length of its slice, and before each use of what is shared.
pub data Reading : Type 0 where
  enters retries receives waits_for_packet : ℕ → Reading
  releases : List ℕ → Reading
  leaves : Reply → Reading

pub data Writing : Type 0 where
  enters locks allocates sends : List ℕ → Writing
  unlocks leaves : Reply → Writing

pub data Asking : Type 0 where
  enters asks : Asking
  leaves : ℕ → Asking

pub data Pc : Type 0 where
  rests : Reply → Pc
  reading : Reading → Pc
  writing : Writing → Pc
  asking : Asking → Pc
  closing : Pc

-- A step moves the goroutine, or has to wait, or uses what is not there any more: a session that has
-- ended, an adapter that is closed, a lock that is not held, a counter that is zero.
pub data Move : Type 0 where
  moves : WinTun → Pc → Move
  waits misuses : Move

pub data Call : Type 0 where
  read : ℕ → Call
  write : List ℕ → Call
  ask_luid close : Call

abbrev pub add : WinTun → WinTun
add t = record t { running = suc t.running }

-- `running.Done()`, at which a method returns.
abbrev pub done_with : WinTun → Reply → Move
done_with t r = elim t.running [
  | zero ↦ misuses
  | suc n ↦ moves (record t { running = n }) (rests r)
]

-- The first statement of each method. A second `Close` waits for the first, and returns nil.
unfoldable pub begin : Call → WinTun → Move
begin (read len) t = moves (add t) (reading (Reading.enters len))
begin (write b) t = moves (add t) (writing (Writing.enters b))
begin ask_luid t = moves (add t) (asking Asking.enters)
begin close t = elim t.close_once [
  | unused ↦ moves (record t { close_once = doing storing }) closing
  | doing s ↦ waits
  | finished ↦ moves t (rests (closed none))
]

abbrev pub received : ℕ → Received → Pc
received len (packet p) = reading (releases (take len p))
received len no_more_items = reading (waits_for_packet len)
received len receive_eof = reading (Reading.leaves err_closed)
received len invalid_data = reading (Reading.leaves (failure "Invalid Data"))
received len (receive_failure e) = reading (Reading.leaves (failure ("Read failed: " ++ e)))

-- A wait for a packet ends only once the event is set, by wintun or by `Close`.
unfoldable pub read_step : Windows → WinTun → Reading → Move
read_step w t (enters len) =
    moves t (reading (if t.close then Reading.leaves err_closed else retries len))
read_step w t (retries len) =
    moves t (reading (if t.close then Reading.leaves err_closed else receives len))
read_step w t (receives len) =
    if t.session_ended then misuses else moves t (received len w.receive_packet)
read_step w t (waits_for_packet len) =
    if t.event_set
    then moves (record t { event_set = w.event_stays }) (reading (retries len))
    else waits
read_step w t (releases b) =
    if t.session_ended then misuses else moves t (reading (Reading.leaves (read_bytes b)))
read_step w t (leaves r) = done_with t r

abbrev pub allocation : List ℕ → Allocated → Pc
allocation b allocated = writing (sends b)
allocation b allocate_eof = writing (unlocks err_closed)
allocation b buffer_overflow = writing (unlocks (failure "wintun send buffer full"))
allocation b (allocate_failure e) = writing (unlocks (failure ("error writing to tunnel: " ++ e)))

unfoldable pub write_step : Windows → WinTun → Writing → Move
write_step w t (enters b) =
    moves t (writing (if t.close then Writing.leaves err_closed else locks b))
write_step w t (locks b) =
    if t.write_lock then waits else moves (record t { write_lock = true }) (writing (allocates b))
write_step w t (allocates b) =
    if t.session_ended then misuses else moves t (allocation b w.allocate_send_packet)
write_step w t (sends b) =
    if t.session_ended then misuses else moves t (writing (unlocks (written (length b))))
write_step w t (unlocks r) =
    if t.write_lock
    then moves (record t { write_lock = false }) (writing (Writing.leaves r))
    else misuses
write_step w t (leaves r) = done_with t r

unfoldable pub luid_step : Windows → WinTun → Asking → Move
luid_step w t enters = moves t (asking (if t.close then Asking.leaves 0 else asks))
luid_step w t asks =
    if t.adapter_closed then misuses else moves t (asking (Asking.leaves w.adapter_luid))
luid_step w t (leaves id) = done_with t (luid id)

-- The adapter of a tunnel that `NewTun` has made is not nil.
unfoldable pub close_stage : Windows → WinTun → Stage → Move
close_stage w t storing = moves (record t { close = true; close_once = doing signalling }) closing
close_stage w t signalling =
    moves (record t { event_set = true; close_once = doing waiting }) closing
close_stage w t waiting = elim t.running [
  | zero ↦ moves (record t { close_once = doing ending }) closing
  | suc n ↦ waits
]
close_stage w t ending =
    if t.session_ended
    then misuses
    else moves (record t { session_ended = true; close_once = doing freeing }) closing
close_stage w t freeing =
    if t.adapter_closed
    then misuses
    else moves
        (record t { adapter_closed = true; close_once = doing (Stage.leaving w.close_adapter) })
        closing
close_stage w t (leaving e) = moves (record t { close_once = finished }) (rests (closed e))

unfoldable pub close_step : Windows → WinTun → Move
close_step w t = elim t.close_once [
  | doing s ↦ close_stage w t s
  | unused ↦ misuses
  | finished ↦ misuses
]

-- A goroutine that is in no method has no step.
unfoldable pub step : Windows → WinTun → Pc → Move
step w t (rests r) = waits
step w t (reading p) = read_step w t p
step w t (writing p) = write_step w t p
step w t (asking p) = luid_step w t p
step w t closing = close_step w t

unfoldable pub mtu : ℕ
mtu = 1400

-- `NewTun`, with what `CreateAdapter` and `StartSession` come to.
unfoldable pub new_tun : Option String → Bool → Result String WinTun
new_tun (some e) session = err ("error creating wintun adapater: " ++ e)
new_tun none false = err "error starting wintun session"
new_tun none true = ok (record {
  close = false;
  close_once = unused;
  running = 0;
  write_lock = false;
  session_ended = false;
  adapter_closed = false;
  event_set = false;
})
