-- ===== src/Rtc/Context/Logging.antt =====
-- src/context.c, src/rtc-api/rtc-context.cpp: which messages are printed.
use pomelo_udp_webrtc_plugin.Base.{
  ◌≡◌, refl, Bool, some, List, [], ◌∷◌, Bytes, leb, ◌==◌, if◌then◌else◌, arith,
}
use pomelo_udp_webrtc_plugin.Rtc.Context.{
  LogLevel, level_number, plugin_log_level, rtc_log_handler, debug, Pool, RtcContext, init_log,
  handle_exception, library_message,
}

-- Documented of `rtc::InitLogger`: messages up to the given level are passed on.
abbrev pub PassesUpTo : (LogLevel → LogLevel → Bool) → Type 0
PassesUpTo passes =
    (limit level : LogLevel) → passes limit level ≡ leb (level_number level) (level_number limit)

-- The context as the plugin creates it
abbrev pub plugin_context : List Pool → RtcContext
plugin_context made = init_log plugin_log_level (some rtc_log_handler) made

printed :
    (passes : LogLevel → LogLevel → Bool) (level : LogLevel) (message : Bytes)
    → passes plugin_log_level level ≡ leb (level_number level) (level_number plugin_log_level)
    → (if passes plugin_log_level level then rtc_log_handler level message else []) ≡ (
        if level_number level == level_number debug
        then record { level = level; message = message } ∷ []
        else [])
unfolding rtc_log_handler
printed passes level message e = ground (arith, e)

-- Where the library's logger keeps to its documentation, a message of the library reaches the log exactly
-- if its level is the debug level, so that no warning and no error does; a handled exception of the
-- wrapper always does, at the debug level.
pub plugin_context-logged :
    (passes : LogLevel → LogLevel → Bool) (made : List Pool) (level : LogLevel)
    (message what : Bytes)
    → PassesUpTo passes
    → (library_message passes (plugin_context made) level message ≡ (
        if level_number level == level_number debug
        then record { level = level; message = message } ∷ []
        else []))
      × (handle_exception (plugin_context made) what
          ≡ record { level = debug; message = what } ∷ [])
unfolding library_message handle_exception init_log rtc_log_handler
plugin_context-logged passes made level message what law =
    (printed passes level message (law plugin_log_level level), refl)
