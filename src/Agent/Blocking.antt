-- ===== src/Agent/Blocking.antt =====
-- The handlers of internal/agent/blacklist.go, and what the worker's process makes of a rollback that
-- they ask for (cmd/clawmast/run.go, main.go).
pub mod Marking
use clawmast.Prelude.{
  ℕ, Time, String, Bool, true, false, ◌&&◌, Option, none, some, List, if◌then◌else◌, str_eq,
}
use clawmast.Json.{Codec}
use clawmast.Blacklist.{Entry, BlacklistFile, Faults, Result, ok, err, load, add}
use clawmast.Agent.Server.{Config, Reply, refused, replied}

pub record AddRequest : Type 0 where
  pub version : String
  pub reason : String

-- The body of a POST: none or an empty one, one that cannot be decoded, or a request.
pub data AddBody : Type 0 where
  no_body bad_body : AddBody
  body : AddRequest → AddBody

-- The timestamps are shown as texts; the count is the length of the list.
pub record AddResponse : Type 0 where
  pub entries : List Entry
  pub marked_version : String
  pub reason : String
  pub rollback_requested : Bool

abbrev no_request : AddRequest
no_request = record { version = ""; reason = "" }

abbrev pub zero_time : Time
zero_time = 0

module _ {B : Type 0} (json : Codec (List Entry) B) where
  unfoldable pub listed_reply : Result (List Entry) → Reply (List Entry)
  listed_reply (err e) = refused 500
  listed_reply (ok entries) = replied 200 entries

  -- handleBlacklistList
  unfoldable pub handle_blacklist_list : Config → Bool → BlacklistFile B → Reply (List Entry)
  unfolding listed_reply
  handle_blacklist_list cfg fault file =
      if str_eq cfg.install_root "" then refused 503 else listed_reply (load json fault file)

  -- What is answered after Add; the last component says that RequestRollback is called.
  unfoldable pub added :
      Config
      → String
      → String
      → String
      → BlacklistFile B × Result (List Entry)
      → BlacklistFile B × Reply AddResponse × Bool
  added cfg label target reason (file, err e) = (file, refused 500, false)
  added cfg label target reason (file, ok entries) =
      let rollback = str_eq target label && cfg.request_rollback in
      (
        file,
        replied 202 (record {
          entries = entries;
          marked_version = target;
          reason = reason;
          rollback_requested = rollback;
        }),
        rollback,
      )

  unfoldable pub add_request :
      Config
      → Faults B
      → Time
      → String
      → BlacklistFile B
      → AddRequest
      → BlacklistFile B × Reply AddResponse × Bool
  unfolding added
  add_request cfg f now label file req =
      let target = if str_eq req.version "" then label else req.version in
      let reason = if str_eq req.reason "" then "user-marked-bad" else req.reason in
      if str_eq target ""
      then (file, refused 400, false)
      else added cfg label target reason (
          add json f file now (record { version = target; timestamp = zero_time; reason = reason }))

  unfoldable pub add_body :
      Config
      → Faults B
      → Time
      → String
      → BlacklistFile B
      → AddBody
      → BlacklistFile B × Reply AddResponse × Bool
  unfolding add_request
  add_body cfg f now label file bad_body = (file, refused 400, false)
  add_body cfg f now label file no_body = add_request cfg f now label file no_request
  add_body cfg f now label file (body req) = add_request cfg f now label file req

  -- handleBlacklistAdd, of a worker whose version label is the text.
  unfoldable pub handle_blacklist_add :
      Config
      → Faults B
      → Time
      → String
      → BlacklistFile B
      → AddBody
      → BlacklistFile B × Reply AddResponse × Bool
  unfolding add_body
  handle_blacklist_add cfg f now label file b =
      if str_eq cfg.install_root ""
      then (file, refused 503, false)
      else add_body cfg f now label file b

-- What ends the select of runWorker: its context, a rollback or a restart that a handler asked for, or
-- the end of the HTTP server, with or without an error.
pub data Wakeup : Type 0 where
  context_done rollback_asked restart_asked http_closed http_failed : Wakeup

-- The exit code of the process, from the end of runWorker and main.
unfoldable pub exit_code : Wakeup → ℕ
exit_code context_done = 0
exit_code rollback_asked = 65
exit_code restart_asked = 0
exit_code http_closed = 0
exit_code http_failed = 1
