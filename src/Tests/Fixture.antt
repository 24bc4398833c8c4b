-- ===== src/Tests/Fixture.antt =====
-- Libraries that a test can run: arrays are lists, every call succeeds, the counters count the calls.
use pomelo_udp_webrtc_plugin.Base.{
  ℕ, zero, suc, ◌+◌, ◌^◌, ◌<◌, ◌≡◌, refl, ap, ◌∙◌, Bool, true, false, Option, none, some, List, [],
  ◌∷◌, ◌++◌, Bytes, ltb, ◌==◌, if◌then◌else◌, length, take, get_elem?, arith,
}
use pomelo_udp_webrtc_plugin.Decimal.{pos}
use pomelo_udp_webrtc_plugin.StringBuffer.{StringBuffer}
use pomelo_udp_webrtc_plugin.StringBuffer.Growth.{Allocates, IsValid}
use pomelo_udp_webrtc_plugin.Frame.{Payload}
use pomelo_udp_webrtc_plugin.Frame.RoundTrip.{PayloadLaws}
use pomelo_udp_webrtc_plugin.Env.{Mode, Call, ArrayLib, Env}
use pomelo_udp_webrtc_plugin.World.{Channel, Session, World}
use pomelo_udp_webrtc_plugin.Channel.Release.{channel_refs, CountsChannels}

abbrev pub zeros : ℕ → Bytes
zeros zero = []
zeros (suc n) = 0 ∷ zeros n

pub length-zeros : (n : ℕ) → length (zeros n) ≡ n
length-zeros zero = refl
length-zeros (suc n) = ap suc (length-zeros n)

-- An allocator that always has memory.
abbrev pub some_memory : ℕ → Option Bytes
some_memory n = some (zeros n)

pub some_memory-Allocates : Allocates some_memory
some_memory-Allocates n block e = let same : block ≡ zeros n = cc in ap length same ∙ length-zeros n

-- An emptied buffer.
abbrev pub empty_buffer : StringBuffer
empty_buffer = record { capacity = 64; position = 0; block = zeros 64 }

pub empty_buffer-IsValid : IsValid empty_buffer
empty_buffer-IsValid = record {
  sized = refl;
  within = omega arith;
  nonempty = omega arith;
  capped = omega arith;
}

-- An integer takes eight places, of which the first one holds it.
abbrev pub eight_places : ℕ → ℕ → Bytes
eight_places zero v = []
eight_places (suc n) v = v ∷ zeros n

abbrev pub eight_payload : Payload
eight_payload = record {
  packed_bytes = λ v. 8;
  write_packed = eight_places;
  read_packed = λ bytes n. get_elem? bytes 0;
}

length-eight_places : (n v : ℕ) → length (eight_places n v) ≡ n
length-eight_places zero v = refl
length-eight_places (suc n) v = ap suc (length-zeros n)

pub eight_payload-PayloadLaws : PayloadLaws eight_payload
eight_payload-PayloadLaws = record {
  packed_bytes_pos = λ v. omega arith;
  packed_bytes-le = λ v. omega arith;
  length-write_packed = length-eight_places;
  read_packed-write_packed = λ v rest h. refl;
}

-- Arrays of at most 255 elements; `blank` is the element of zero bytes.
abbrev pub max_size : ℕ
max_size = 255

abbrev pub list_size : {A : Type 0} → List A → ℕ
list_size xs = if ltb (length xs) max_size then length xs else max_size

abbrev pub list_set : {A : Type 0} → List A → ℕ → A → List A
list_set [] i x = []
list_set (y ∷ ys) zero x = x ∷ ys
list_set (y ∷ ys) (suc i) x = y ∷ list_set ys i x

abbrev pub blanks : {A : Type 0} → A → ℕ → List A
blanks blank zero = []
blanks blank (suc n) = blank ∷ blanks blank n

abbrev pub list_array : {A : Type 0} → A → ArrayLib A
list_array {A = A} blank = record {
  Array = List A;
  size = list_size;
  get = get_elem?;
  set = list_set;
  resize = λ xs n. if ltb n max_size then some (take n (xs ++ blanks blank n)) else none;
  fill_zero = λ xs. blanks blank (length xs);
  clear = λ xs. [];
}

pub list_size_fits : {A : Type 0} (xs : List A) → list_size xs + 1 < 2 ^ 64
list_size_fits xs = ground arith

-- An unreference calls the finalizer when the calls so far left one reference; the session is held
-- elsewhere too. All other calls succeed.
abbrev pub answers : List Call → Call → Bool
answers log (Call.channel_unref p) = channel_refs p log == 1
answers log Call.session_unref = false
answers log c = true

abbrev pub the_channel : ℕ
the_channel = 3

abbrev pub the_task : ℕ
the_task = 9

-- The data of every data channel is the same channel; every task, the same task.
abbrev pub pointers : List Call → Call → Option ℕ
pointers log (Call.dc_get_data dc) = some the_channel
pointers log Call.acquire_timer_task = some the_task
pointers log c = some (length log + 100)

abbrev pub test_env : Env
test_env = record {
  pointers = list_array none;
  modes = list_array Mode.unreliable;
  payload = eight_payload;
  pointer = pointers;
  succeeds = answers;
  number = λ log c. 0;
  text = λ log c. [];
  string_buffer = λ log. some empty_buffer;
  malloc = λ log. some_memory;
  token_base64_length = 4;
  token_base64_no_padding_length = 3;
  base64_decode = λ bytes. some bytes;
  token_info = λ log token. none;
}

pub test_env-CountsChannels : CountsChannels test_env
test_env-CountsChannels log p = refl

abbrev pub the_session : Session test_env
the_session = record {
  flags = record {
    active = true;
    ws_active = true;
    ws_authenticated = false;
    pc_active = true;
    ready_signal_received = false;
    all_channels_opened = false;
  };
  socket = some 1;
  channels = some the_channel ∷ some 4 ∷ [];
  system_channel = some 5;
  list_entry = some 6;
  opened_channels = 0;
  ping_task = none;
  native_session = none;
  client_id = pos 0;
  pc = some 7;
  ws_client = some 8;
  task_timeout = some 11;
}

abbrev pub open_channel : Channel
open_channel = record {
  active = true;
  dc_active = true;
  dc_receive = false;
  index = 0;
  mode = Mode.reliable;
  session = true;
  incoming_dc = none;
  outgoing_dc = some 12;
}

-- A session of two channels, each with its two references.
abbrev pub the_world : World test_env
the_world = record {
  session = the_session;
  channel = λ p. open_channel;
  channel_modes = Mode.reliable ∷ Mode.unreliable ∷ [];
  log = Call.channel_ref the_channel ∷ Call.channel_ref_init the_channel ∷ [];
}
