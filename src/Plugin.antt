-- ===== src/Plugin.antt =====
-- The entry of the plugin and its end (src/plugin.c), around the context that it creates.
pub mod Unload
use pomelo_udp_webrtc_plugin.Base.{
  ℕ, zero, suc, ◌≡◌, refl, inl, inr, Bool, Option, none, some, List, if◌then◌else◌, arith,
}
use pomelo_udp_webrtc_plugin.Context.Life.{Part, Deed, Context, context_create, context_destroy}
use pomelo_udp_webrtc_plugin.Context.Life.Balance.{
  creations, destructions, frees_of_null, context_create-context_destroy,
}

-- What the host keeps for the plugin: its data, the context or NULL; and what was done so far with the
-- parts of the context, the last first.
pub record Host : Type 0 where
  pub plugin_data : Option Context
  pub deeds : List Deed

-- `pomelo_webrtc_entry`, given whether there is memory for the context itself
unfoldable pub entry : (Part → Option ℕ) → (allocated started : Bool) → Host
entry made allocated started =
    let (c, ok) = context_create made allocated started in
    record { plugin_data = if ok then some c else none; deeds = c.deeds }

-- `pomelo_webrtc_on_unload`
unfoldable pub on_unload : Host → Host
on_unload h = elim h.plugin_data [
  | none ↦ h
  | some c ↦ record { plugin_data = none; deeds = (context_destroy c).deeds }
]

unfoldable pub unloads : ℕ → Host → Host
unloads zero h = h
unloads (suc n) h = unloads n (on_unload h)
