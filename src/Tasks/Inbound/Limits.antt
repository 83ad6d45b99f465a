-- ===== src/Tasks/Inbound/Limits.antt =====
-- The abuse limits of the inbox: a2aRecentSkillCount and a2aEvictOldInboundTasks
-- (pilot-module/src/pilot_a2a_inbox.cpp).
use logos_pilot.Prelude.{
  ℕ, suc, ◌+◌, Bool, false, List, [], ◌∷◌, ◌&&◌, ◌||◌, not, take, leb, ltb, if◌then◌else◌,
}
use logos_pilot.Text.{Text, same, is_empty}
use logos_pilot.Table.{rows_where, delete}
use logos_pilot.Agent.{Pilot, InboundTask}
use logos_pilot.Agent.States.{is_terminal}
use logos_pilot.Tasks.Inbound.Request.{Env}

abbrev pub max_service_bytes : ℕ
max_service_bytes = 8192

abbrev pub service_window_sec : ℕ
service_window_sec = 60

abbrev pub service_max_per_window : ℕ
service_max_per_window = 10

abbrev pub max_params_bytes : ℕ
max_params_bytes = 16384

abbrev pub inbound_max_per_window : ℕ
inbound_max_per_window = 30

abbrev pub inbound_task_ttl_sec : ℕ
inbound_task_ttl_sec = 86400

abbrev pub inbound_task_max_rows : ℕ
inbound_task_max_rows = 5000

-- `sender_npk=? [AND skill=?] AND created_at >= ?`: with an empty skill the middle part is left out.
abbrev pub counts : Text → Text → ℕ → InboundTask → Bool
counts npk skill since r =
    same r.sender_npk npk && ((is_empty skill || same r.skill skill) && leb since r.created_at)

unfoldable pub count_rows : (InboundTask → Bool) → List InboundTask → ℕ
count_rows c [] = 0
count_rows c (r ∷ rs) = if c r then suc (count_rows c rs) else count_rows c rs

unfoldable pub recent_skill_count : Pilot → Text → Text → ℕ → ℕ
recent_skill_count p npk skill since =
    if p.has_db then count_rows (counts npk skill since) p.inbound else 0

abbrev pub has_id : Text → List InboundTask → Bool
has_id id [] = false
has_id id (r ∷ rs) = same r.id id || has_id id rs

-- `created_at < now - TTL`, in signed integers.
abbrev pub is_outdated : ℕ → InboundTask → Bool
is_outdated now r = is_terminal r.state && ltb (r.created_at + inbound_task_ttl_sec) now

abbrev pub is_surplus : List InboundTask → InboundTask → Bool
is_surplus kept r = is_terminal r.state && not (has_id r.id kept)

abbrev pub kept_rows : Env → List InboundTask → List InboundTask
kept_rows e rs =
    take inbound_task_max_rows (e.newest_first (rows_where (λ r. is_terminal r.state) rs))

-- Old terminal rows go, and of the others the newest stay.
unfoldable pub evict_old_inbound_tasks : Env → Pilot → ℕ → Pilot
evict_old_inbound_tasks e p now =
    let fresh = delete (is_outdated now) p.inbound in
    if p.has_db then record p { inbound = delete (is_surplus (kept_rows e fresh)) fresh } else p
