-- ===== src/Daemon/Commands.antt =====
-- cmd/whatunga/main.go: the commands status and watch, the notifiers, and how serve begins.
use whatunga.Prelude.{
  Option, none, some, List, [], ◌∷◌, ◌++◌, Str, codes, str_eq, if◌then◌else◌, ◌⊎◌, inl, inr,
}
use whatunga.Prelude.Maps.{Map}
use whatunga.Config.{Device, Config}
use whatunga.Config
use whatunga.Monitor.{Kind, Snapshot}
use whatunga.Store.{new_history}
use whatunga.Notify.{
  poll_failed, Notifier, Manager, Effect, new_manager, record_success, record_failure,
}
use whatunga.Notify.Senders
use whatunga.Notify.Senders.{
  TelegramNotifier, EmailNotifier, WebhookNotifier, telegram_notify, email_notify, webhook_notify,
}
use whatunga.Daemon.{Poller, PollerEntry, Outside, Daemon, new_poller_for, open_pollers}

abbrev pub type_telegram : Str
type_telegram = codes "telegram"

abbrev pub type_email : Str
type_email = codes "email"

abbrev pub type_webhook : Str
type_webhook = codes "webhook"

module _ (services : Senders.Outside) where
  -- One entry; none for an unknown type, which is logged.
  unfoldable pub notifier_of : Config.Notifier → Option Notifier
  notifier_of n =
      if str_eq n.type type_telegram
      then some (record {
        notify = telegram_notify services (record { bot_token = n.bot_token; chat_id = n.chat_id });
      })
      else if str_eq n.type type_email
      then some (record {
        notify = email_notify services (record {
          smtp_server = n.smtp_server;
          smtp_port = n.smtp_port;
          username = n.username;
          password = n.password;
          from = n.from;
          to = n.to;
        });
      })
      else if str_eq n.type type_webhook
      then some (record { notify = webhook_notify services (record { url = n.url }) })
      else none

  appended : Option Notifier → List Notifier → List Notifier
  appended none notifiers = notifiers
  appended (some n) notifiers = n ∷ notifiers

  unfoldable pub notifiers_of : List Config.Notifier → List Notifier
  unfolding appended
  notifiers_of [] = []
  notifiers_of (n ∷ ns) = appended (notifier_of n) (notifiers_of ns)

  unfoldable pub build_notifiers : Config → List Notifier
  build_notifiers cfg = notifiers_of cfg.notifiers

-- What status writes: a line in the log for a device, or a snapshot.
pub data Output : Type 0 where
  logged : Str → Output
  printed : Snapshot → Output

module _ {ℓ} {W : Type ℓ} (outside : Outside W) where
  -- The deferred Close follows the snapshot.
  once : W × Option (Poller W) → W × Option Snapshot
  once (w, none) = (w, none)
  once (w, some poller) = closed poller (poller.snapshot w)
    where
      result : Str ⊎ Snapshot → Option Snapshot
      result (inl e) = none
      result (inr snap) = some snap

      closed : Poller W → W × (Str ⊎ Snapshot) → W × Option Snapshot
      closed poller (w, r) = (poller.close w, result r)

  -- A snapshot, or none for an error, whose text the caller only logs.
  unfoldable pub poll_once : Device → W → W × Option Snapshot
  unfolding once
  poll_once d w = once (new_poller_for outside d w)

  output_of : Device → Option Snapshot → Output
  output_of d none = logged d.name
  output_of d (some snap) = printed snap

  unfoldable pub run_status : List Device → W → W × List Output
  unfolding output_of
  run_status [] w = (w, [])
  run_status (d ∷ ds) w =
      let (w1, r) = poll_once d w in
      let (w2, outputs) = run_status ds w1 in (w2, output_of d r ∷ outputs)

  -- What a run of watch keeps and has done, with the snapshots that it has printed.
  pub record Watch : Type ℓ where
    pub world : W
    pub manager : Manager
    pub effects : List Effect
    pub printed : List Snapshot

  unfoldable pub watch_result : Watch → Str → Kind → W → Str ⊎ Snapshot → Watch
  watch_result d name kind w (inl error) =
      let (now, fired) = outside.clock w in
      let (manager, effects) = record_failure d.manager name kind error now fired in
      record d {
        world = w;
        manager = manager;
        effects = d.effects ++ poll_failed name error ∷ effects;
      }
  watch_result d name kind w (inr snap) =
      let (now, fired) = outside.clock w in
      let (manager, effects) = record_success d.manager name kind now fired in
      record d {
        world = w;
        manager = manager;
        effects = d.effects ++ effects;
        printed = d.printed ++ snap ∷ [];
      }

  -- Over the entries in the order of the range, as in pollAllInto.
  unfoldable pub poll_all_once : List (Str × PollerEntry W) → Watch → Watch
  poll_all_once [] d = d
  poll_all_once ((name, entry) ∷ entries) d =
      let (w, result) = entry.poller.snapshot d.world in
      poll_all_once entries (watch_result d name entry.kind w result)

  unfoldable pub close_pollers : List (Str × PollerEntry W) → W → W
  close_pollers [] w = w
  close_pollers ((name, entry) ∷ entries) w = close_pollers entries (entry.poller.close w)

  -- The state of watch and of serve before the first round, and the pollers.
  unfoldable pub begin_watch : Senders.Outside → Config → W → Watch × Map (PollerEntry W)
  begin_watch services cfg w =
      let (w1, pollers) = open_pollers outside cfg.devices w in
      (
        record {
          world = w1;
          manager = new_manager cfg.notify_threshold (build_notifiers services cfg);
          effects = [];
          printed = [];
        },
        pollers,
      )

  unfoldable pub begin_serve : Senders.Outside → Config → W → Daemon outside × Map (PollerEntry W)
  begin_serve services cfg w =
      let (w1, pollers) = open_pollers outside cfg.devices w in
      (
        record {
          world = w1;
          history = new_history cfg.history_size;
          manager = new_manager cfg.notify_threshold (build_notifiers services cfg);
          effects = [];
        },
        pollers,
      )
