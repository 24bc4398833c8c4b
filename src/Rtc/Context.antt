-- ===== src/Rtc/Context.antt =====
-- The context of the wrapper (src/rtc-api/rtc-context.cpp, rtc-object-pool.hpp, and the functions of
-- rtc-api.cpp that create and destroy it), and the log handler that the plugin gives to it
-- (src/context.c).
--
-- Whether a pool can be created is an argument. The library's logger is one, too: it says which messages
-- it passes on at the level that it was initialized with.
use pomelo_udp_webrtc_plugin.Base.{
  ℕ, Bool, true, false, not, Option, none, some, List, [], ◌∷◌, ◌++◌, Bytes, leb, if◌then◌else◌,
}
pub mod Pools
pub mod Logging

-- `rtc_log_level`, by its numbers
pub data LogLevel : Type 0 where
  no_log fatal error warning info debug verbose : LogLevel

abbrev pub level_number : LogLevel → ℕ
level_number no_log = 0
level_number fatal = 1
level_number error = 2
level_number warning = 3
level_number info = 4
level_number debug = 5
level_number verbose = 6

-- `POMELO_PLUGIN_WEBRTC_LOG_LEVEL`
abbrev pub plugin_log_level : LogLevel
plugin_log_level = debug

-- What was printed, with its level.
pub record LogLine : Type 0 where
  pub level : LogLevel
  pub message : Bytes

abbrev pub LogCallback : Type 0
LogCallback = LogLevel → Bytes → List LogLine

-- `rtc_log_handler`
unfoldable pub rtc_log_handler : LogCallback
rtc_log_handler level message =
    if leb (level_number plugin_log_level) (level_number level)
    then record { level = level; message = message } ∷ []
    else []

-- The pools of the context, in the order in which they are created and deleted.
pub data Pool : Type 0 where
  pool_wsserver pool_wsclient pool_pc pool_dc pool_buffer : Pool

abbrev pub pools : List Pool
pools = pool_wsserver ∷ pool_wsclient ∷ pool_pc ∷ pool_dc ∷ pool_buffer ∷ []

-- `RTCContext`: its pools, what it was given for its log, and the logger of the library.
pub record RtcContext : Type 0 where
  pub made_pools : List Pool
  pub log_callback : Option LogCallback
  pub logger : Option (LogLevel × LogCallback)
  pub user_data : Option ℕ

-- The constructors of the pools, one after another; the first one that throws ends them.
unfoldable pub make_pools : (Pool → Bool) → List Pool → List Pool → List Pool × Bool
make_pools makes [] done = (done, true)
make_pools makes (p ∷ ps) done =
    let rest = make_pools makes ps (done ++ p ∷ []) in if makes p then rest else (done, false)

-- The end of `RTCContext::RTCContext`: the log. The data of the context is set later.
unfoldable pub init_log : LogLevel → Option LogCallback → List Pool → RtcContext
init_log level callback made =
    let fresh : RtcContext = record {
      made_pools = made;
      log_callback = none;
      logger = none;
      user_data = none;
    } in
    elim callback [
      | none ↦ fresh
      | some f ↦ record fresh {
        log_callback = if leb (level_number debug) (level_number level) then some f else none;
        logger = some (level, f);
      }
    ]

-- What `rtc_context_create` ends with: NULL, the context, or an exception that leaves it, with the pools
-- that nothing points to any more.
pub data ContextCreation : Type 0 where
  no_context : ContextCreation
  returned : RtcContext → ContextCreation
  thrown : List Pool → ContextCreation

-- `rtc_context_create`; `new (std::nothrow)` is about the memory of the context only.
unfoldable pub rtc_context_create :
    Bool → (Pool → Bool) → LogLevel → Option LogCallback → ContextCreation
rtc_context_create has_memory makes level callback =
    let (made, ok) = make_pools makes pools [] in
    if not has_memory
    then no_context
    else if ok
    then returned (init_log level callback made)
    else thrown made

-- `rtc_context_destroy`, with `RTCContext::~RTCContext`: the pools that are deleted.
unfoldable pub rtc_context_destroy : RtcContext → List Pool
rtc_context_destroy c = pools

-- `RTCContext::handle_exception`
unfoldable pub handle_exception : RtcContext → Bytes → List LogLine
handle_exception c what = elim c.log_callback [ none ↦ [] | some f ↦ f debug what ]

-- A message of the library, as its logger hands it to the callback.
unfoldable pub library_message :
    (LogLevel → LogLevel → Bool) → RtcContext → LogLevel → Bytes → List LogLine
library_message passes c level message = elim c.logger [
  | none ↦ []
  | some (limit, f) ↦ if passes limit level then f level message else []
]
