-- ===== src/Context/Life/Loops.antt =====
-- src/context.c: how often the event loop of the context was initialized.
use pomelo_udp_webrtc_plugin.Base.{ℕ, ◌+◌, ◌≡◌, refl, ◌∙◌, Bool, true, Option, List, [], ◌∷◌, arith}
use pomelo_udp_webrtc_plugin.Context.Life.{
  Part, parts, other_parts, Deed, loop_initialized, Context, did, thread_shutdown, destroy_part,
  destroy_parts, context_destroy, cleared, start_thread, create_part, create_parts, fill_context,
}

-- How often the event loop was initialized.
abbrev pub loops : List Deed → ℕ
loops [] = 0
loops (loop_initialized ∷ l) = loops l + 1
loops (_ ∷ l) = loops l

destroy_parts-loops :
    (qs : List Part) (c : Context) → loops (destroy_parts qs c).deeds ≡ loops c.deeds
unfolding destroy_parts destroy_part
destroy_parts-loops [] c = refl
destroy_parts-loops (q ∷ qs) c = destroy_parts-loops qs (destroy_part q c) ∙ ground arith

pub context_destroy-loops : (c : Context) → loops (context_destroy c).deeds ≡ loops c.deeds
unfolding context_destroy thread_shutdown
context_destroy-loops c = destroy_parts-loops parts (thread_shutdown c) ∙ ground arith

create_parts-loops :
    (made : Part → Option ℕ) (qs : List Part) (c : Context)
    → loops (create_parts made qs c).0.deeds ≡ loops c.deeds
unfolding create_parts create_part
create_parts-loops made [] c = refl
create_parts-loops made (q ∷ qs) c =
    let rest = create_parts-loops made qs (create_part made q c).0 in ground (arith, rest)

pub fill_context-loops :
    (made : Part → Option ℕ) (started : Bool)
    → (fill_context made started).1 ≡ true
    → loops (fill_context made started).0.deeds ≡ 1
unfolding fill_context create_part start_thread
fill_context-loops made started ok =
    let c1 = did Deed.configured_callbacks (create_part made Part.rtc_context cleared).0 in
    let same = create_parts-loops made other_parts c1 in ground (arith, same, ok)
