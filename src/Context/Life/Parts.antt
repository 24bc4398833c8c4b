-- ===== src/Context/Life/Parts.antt =====
-- The numbers of the parts of the context tell them apart.
use pomelo_udp_webrtc_plugin.Base.{ℕ, ◌≡◌, refl, sym, ap, ◌∙◌, true, ◌==◌, if◌then◌else◌, arith}
use pomelo_udp_webrtc_plugin.Context.Life.{Part, part_number}

abbrev part_at : ℕ → Part
part_at n =
    if n == 0
    then Part.rtc_context
    else if n == 1
    then Part.socket_map
    else if n == 2
    then Part.string_buffer_pool
    else if n == 3
    then Part.connect_token_pool
    else if n == 4
    then Part.socket_pool
    else if n == 5
    then Part.session_pool
    else if n == 6
    then Part.channel_pool
    else if n == 7
    then Part.tasks
    else if n == 8
    then Part.async_tasks_pool
    else if n == 9
    then Part.scheduled_tasks_pool
    else if n == 10
    then Part.worker_tasks_pool
    else Part.recv_command_pool

part_at-part_number : (p : Part) → part_at (part_number p) ≡ p
part_at-part_number Part.rtc_context = refl
part_at-part_number Part.socket_map = refl
part_at-part_number Part.string_buffer_pool = refl
part_at-part_number Part.connect_token_pool = refl
part_at-part_number Part.socket_pool = refl
part_at-part_number Part.session_pool = refl
part_at-part_number Part.channel_pool = refl
part_at-part_number Part.tasks = refl
part_at-part_number Part.async_tasks_pool = refl
part_at-part_number Part.scheduled_tasks_pool = refl
part_at-part_number Part.worker_tasks_pool = refl
part_at-part_number Part.recv_command_pool = refl

pub same_part : (q p : Part) → (part_number q == part_number p) ≡ true → q ≡ p
same_part q p h =
    let same : part_number q ≡ part_number p = ground (arith, h) in
    sym (part_at-part_number q) ∙ ap part_at same ∙ part_at-part_number p
