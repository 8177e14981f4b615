-- ===== src/Pipeline/Tests.antt =====
-- Events through the pipeline, and the witnesses of its theorems.
use telegram_br.Base.{◌+◌, ◌≤◌, ◌≡◌, refl, true, false, none, [], ◌∷◌, arith, length}
use telegram_br.DeadLetters.{
  Event, Error, flood_of, delay_of, schedule, add_dead_letter, persist_dead_letter, push,
  start_retry, end_retry, stop,
}
use telegram_br.Pipeline.{
  alerted, failed, Answers, Monitor, Library, is_empty_text, validate_event, count_drop,
  insert_message, try_insert_message, store_message, end_analysis, analyze_and_alert,
  process_stored, process_valid, process_event_pipeline, settle, process_event_from_queue,
  retry_send_alert, dlq_reprocess, run_retry, fire_task, fire,
}
use telegram_br.Pipeline.Once.{
  arrives, retries, perform, perform_all, count_analyzed, perform_all-once,
}
use telegram_br.Pipeline.Failing.{AlwaysFails, fire_times, fire_times-dies, IsDead}
use telegram_br.Pipeline.Vain.{FailsLate, fire-vain}

abbrev lib : Library
lib = record { hash = λ e. e.message_id; remember = λ h hs. h ∷ hs; cache_size = 100 }

abbrev event : Event
event = record {
  chat_id = 3;
  message_id = 40;
  sender_id = 5;
  text = 65 ∷ [];
  recovered = false;
  resend = false;
}

abbrev flood : Error
flood = record { wait_seconds = 30; remaining = none }

abbrev calm : Answers
calm = record {
  fresh = true;
  sender_blocked = false;
  chat_blocked = false;
  scope_on = false;
  source_allowed = false;
  ignored = false;
  ignored_async = false;
  own_message = false;
  card_echo = false;
  length_ok = true;
  insert_works = true;
  analysis = alerted;
  letter_works = true;
}

abbrev broken : Answers
broken = record calm { analysis = failed flood }

-- An event that had been in flight when a worker died.
abbrev recovered_event : Event
recovered_event = record event { recovered = true }

abbrev monitor : Monitor
monitor = record {
  processed_hashes = [];
  message_cache = [];
  messages = [];
  alerts = [];
  totals = [];
  total_messages = 0;
  dlq = record {
    max_retries = 3;
    has_reprocess = true;
    stopping = false;
    retry_tasks = [];
    scheduled_keys = [];
    stats = record {
      retry_scheduled = 0;
      retry_started = 0;
      retry_succeeded = 0;
      retry_failed = 0;
      dead_lettered = 0;
    };
    dead_letters = [];
  };
  stats = record {
    source_skipped = 0;
    spam_skipped = 0;
    echo_skipped = 0;
    length_rejected = 0;
    duplicates = 0;
    recovered_dupe_skip = 0;
    queue_processed = 0;
    errors = 0;
  };
  analyzed = [];
}

program : Unit {0}
unfolding flood_of delay_of schedule add_dead_letter persist_dead_letter push start_retry end_retry
    stop is_empty_text validate_event count_drop insert_message try_insert_message store_message
    end_analysis analyze_and_alert process_stored process_valid process_event_pipeline settle
    process_event_from_queue retry_send_alert dlq_reprocess run_retry fire_task perform perform_all
    fire_times
program = tt

-- The alert is sent, and its receipt written.
process-calm : (process_event_from_queue lib calm event 0 monitor).0.alerts ≡ 40 ∷ []
unfolding program
process-calm = refl

-- A recovered event whose message is stored, but whose alert was not sent, is analysed again.
process-recovered :
    length
      (perform_all lib
        (arrives broken event ∷ arrives calm (record event { recovered = true }) ∷ [])
        monitor).analyzed
    ≡ 2
unfolding program
process-recovered = refl

-- The third retry is the last one, and waits at least the flood wait.
delay-third : delay_of flood 2 ≡ 30
unfolding program
delay-third = refl

-- After a stop nothing is retried, and nothing is stored: the waiting event is lost.
stop-lost :
    (stop (process_event_from_queue lib broken recovered_event 0 monitor).0.dlq).dead_letters ≡ []
unfolding program
stop-lost = refl

perform_all-once_example :
    count_analyzed lib 40
      (perform_all lib
        (arrives broken event ∷ arrives calm event ∷ retries 0 calm ∷ [])
        monitor).analyzed
    ≤ 1
perform_all-once_example =
    perform_all-once lib 40 (arrives broken event ∷ arrives calm event ∷ retries 0 calm ∷ [])
      monitor refl

recovered-AlwaysFails : AlwaysFails lib broken recovered_event flood
unfolding program
recovered-AlwaysFails = (refl, refl, refl, refl, refl, refl)

fire_times-dies_example :
    IsDead lib broken recovered_event flood 3 []
      (fire_times lib broken recovered_event flood 3
        (process_event_from_queue lib broken recovered_event 0 monitor).0).dlq
fire_times-dies_example =
    fire_times-dies lib broken recovered_event flood 3 monitor recovered-AlwaysFails refl
      (omega arith) refl refl refl refl refl

broken-FailsLate : FailsLate lib event broken flood
unfolding program
broken-FailsLate = (refl, refl, refl, refl)

fire-vain_example :
    let g = fire lib 0 calm (process_event_from_queue lib broken event 0 monitor).0 in
    (g.analyzed ≡ event ∷ [])
    × (g.dlq.retry_tasks ≡ [])
    × (g.dlq.dead_letters ≡ [])
    × (g.dlq.stats.retry_succeeded ≡ 0 + 1)
fire-vain_example =
    fire-vain lib event broken calm flood monitor broken-FailsLate (refl, refl, refl) (refl, refl)
      (omega arith, refl, refl, refl, refl)
