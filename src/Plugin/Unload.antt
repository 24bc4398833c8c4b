-- ===== src/Plugin/Unload.antt =====
-- src/plugin.c: what is left after the plugin is unloaded.
use pomelo_udp_webrtc_plugin.Base.{
  ap, sym, ◌∙◌, ℕ, zero, suc, ◌≡◌, refl, inl, inr, Bool, Option, none, if◌then◌else◌, arith,
}
use pomelo_udp_webrtc_plugin.Context.Life.{Part}
use pomelo_udp_webrtc_plugin.Context.Life.Balance.{
  creations, destructions, frees_of_null, context_create-context_destroy,
}
use pomelo_udp_webrtc_plugin.Plugin.{Host, entry, on_unload, unloads}

-- How often memory is given back.
abbrev freed_if : Bool → ℕ
freed_if allocated = if allocated then 1 else 0

-- Nothing of a part is left, and the memory of the context, if there was any, was given back once, though
-- to no allocator.
pub record IsGone (p : Part) (allocated : Bool) (h : Host) : Type 0 where
  pub cleared_data : h.plugin_data ≡ none
  pub destroyed_all : creations p h.deeds ≡ destructions p h.deeds
  pub given_back : frees_of_null h.deeds ≡ (if allocated then 1 else 0)

on_unload_again : (h : Host) → h.plugin_data ≡ none → on_unload h ≡ h
unfolding on_unload
on_unload_again h e = rw e refl

unloads-IsGone :
    (p : Part) (allocated : Bool) (n : ℕ) (h : Host)
    → IsGone p allocated h
    → IsGone p allocated (unloads n h)
unfolding unloads
unloads-IsGone p allocated zero h gone = gone
unloads-IsGone p allocated (suc n) h gone =
    unloads-IsGone p allocated n (on_unload h) (rw (on_unload_again h gone.cleared_data) gone)

entry-IsGone :
    (made : Part → Option ℕ) (allocated started : Bool) (p : Part)
    → IsGone p allocated (on_unload (entry made allocated started))
unfolding entry on_unload
entry-IsGone made allocated started p =
    elim (context_create-context_destroy made allocated started p) [
      | inl (without, failed, nothing) ↦ rw failed (record {
        cleared_data = refl;
        destroyed_all = ap (λ l. creations p l) nothing ∙ sym (ap (λ l. destructions p l) nothing);
        given_back = ap (λ l. frees_of_null l) nothing ∙ sym (ap freed_if without);
      })
      | inr (there, inl (failed, even, once)) ↦ rw failed (record {
        cleared_data = refl;
        destroyed_all = even;
        given_back = once ∙ sym (ap freed_if there);
      })
      | inr (there, inr ((made_it, one, no_end, first, last, once), loop)) ↦ rw made_it (record {
        cleared_data = refl;
        destroyed_all = omega (arith, first, last);
        given_back = once ∙ sym (ap freed_if there);
      })
    ]

-- Whether there is memory for the context or not, and however its creation ends, after the entry and one
-- unload or more the plugin has no data, everything that was created of each part with a pointer is
-- destroyed, and the memory of the context was given back exactly once, if there was any.
pub entry-unloads :
    (made : Part → Option ℕ) (allocated started : Bool) (n : ℕ) (p : Part)
    → IsGone p allocated (unloads (suc n) (entry made allocated started))
entry-unloads made allocated started n p =
    unfold unloads in
    unloads-IsGone p allocated n (on_unload (entry made allocated started))
      (entry-IsGone made allocated started p)
