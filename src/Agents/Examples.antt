-- ===== src/Agents/Examples.antt =====
-- Tests of the agents' map, and its theorems at concrete maps (src/lastore-daemon/agent.go).
use lastore_daemon.Base.{
  true, not, List, [], ◌∷◌, none, some, String, str_eq, if◌then◌else◌, ◌≡◌, refl, arith,
}
use lastore_daemon.Base.Assoc.{lookup, insert, erase, distinct, all_values, filter_option}
use lastore_daemon.Agents.{
  Agent, AgentMap, new_user_agent_map, add_user, remove_user, add_agent, add_session, add_lang,
  handle_name_lost,
}
use lastore_daemon.Agents.Handlers.{Login, get_lang}
use lastore_daemon.Agents.Handlers.Schedule.{Registering, Event, Move, Daemon, move, move_all}
use lastore_daemon.Agents.Valid.{IsValid, is_valid_item}
use lastore_daemon.Agents.Events.{new_daemon, is_undisturbed, move_all-IsValid}
use lastore_daemon.Agents.Record.{Restoring, recover_lastore_agents, get_agents_info, active_paths}
use lastore_daemon.Agents.Recovered.{lang_of, sender_of}
use lastore_daemon.Agents.Restart.{IsConsistent, recover_lastore_agents-get_agents_info}
use lastore_daemon.Agents.Lost.{sender_of-handle_name_lost}

abbrev login : Login
login = record {
  new_session = λ path. true;
  session_type = λ path. some "wayland";
  session_user = λ path. if str_eq path "/s1" then some "1000" else none;
  session_active = λ path. some true;
}

abbrev agent : Agent
agent = record { service_name = ":1.7"; path = "/agent" }

abbrev registering : Registering
registering = record {
  uid = some "1000";
  sessions = some (("1000", "/s1") ∷ ("1001", "/s2") ∷ []);
  has_pid = true;
  environ = some (λ name. if str_eq name "LANG" then "fr" else "");
  agent = some agent;
  login = login;
}

-- A session of the user comes while its agent registers, and another user is removed.
abbrev moves : List Move
moves =
    Move.arrives (Event.registered registering)
    ∷ Move.runs 0
    ∷ Move.arrives (Event.session_new login "/s1")
    ∷ Move.runs 1
    ∷ Move.runs 0
    ∷ Move.arrives (Event.user_removed "1001")
    ∷ Move.runs 0
    ∷ Move.runs 2
    ∷ Move.runs 1
    ∷ Move.runs 2
    ∷ Move.arrives (Event.user_removed "1000")
    ∷ Move.runs 0
    ∷ []

undisturbed : is_undisturbed moves new_daemon ≡ true
unfolding is_undisturbed move add_session add_agent remove_user add_user add_lang lookup erase
    insert get_lang
undisturbed = refl

move_all-IsValid_example : (d : Daemon) × (move_all moves new_daemon ≡ some d) × IsValid d.agents
move_all-IsValid_example = move_all-IsValid moves undisturbed

-- A user that is removed while its agent registers: the item that `addLang` makes has no map of
-- sessions, and `addSession` panics.
panics :
    move_all
      (Move.arrives (Event.registered registering)
        ∷ Move.runs 0
        ∷ Move.arrives (Event.user_removed "1000")
        ∷ Move.runs 0
        ∷ Move.runs 1
        ∷ Move.runs 1
        ∷ [])
      new_daemon
    ≡ none
unfolding move_all add_session add_agent remove_user add_user add_lang lookup erase insert get_lang
panics = refl

abbrev saved : AgentMap
saved = record {
  items =
      (
        "1000",
        record {
          sessions = some (("/s1", record { path = "/s1" }) ∷ []);
          agents = some (("/agent", agent) ∷ []);
          lang = "fr";
        },
      )
      ∷ [];
  active_uid = "1000";
}

saved-IsValid : IsValid saved
unfolding distinct all_values is_valid_item
saved-IsValid = (refl, refl)

abbrev restoring : Restoring
restoring = record {
  record_file = some (get_agents_info saved);
  sessions = some (("1000", "/s1") ∷ []);
  has_owner = λ name. str_eq name ":1.7";
  new_agent = λ sender path. some (record { service_name = sender; path = path });
  login = login;
}

consistent : IsConsistent login "1000" (active_paths "1000" (("1000", "/s1") ∷ []))
consistent path uid h e = ground arith

recover_lastore_agents-get_agents_info_example :
    (m' : AgentMap) × (recover_lastore_agents restoring new_user_agent_map ≡ some m')
    × IsValid m'
    × (m'.active_uid ≡ "1000")
    × ((u : String) → lang_of u m' ≡ lang_of u saved)
    × ((u path : String)
        → sender_of u path m' ≡ filter_option (λ name. str_eq name ":1.7") (sender_of u path saved))
recover_lastore_agents-get_agents_info_example =
    recover_lastore_agents-get_agents_info restoring saved new_user_agent_map (("1000", "/s1") ∷ [])
      saved-IsValid refl refl (λ sender path. refl) consistent

sender_of-handle_name_lost_example :
    sender_of "1000" "/agent" (handle_name_lost ":1.7" saved)
    ≡ filter_option (λ s. not (str_eq s ":1.7")) (sender_of "1000" "/agent" saved)
sender_of-handle_name_lost_example =
    sender_of-handle_name_lost ":1.7" "1000" "/agent" saved saved-IsValid
