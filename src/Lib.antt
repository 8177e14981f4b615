-- ===== src/Lib.antt =====
-- Telegram student-help request monitor: the parts that decide whether an alert is sent.
--
-- The program watches groups through several Telegram accounts. A message becomes an event, which a
-- gate may drop (too old, too short, too long), waits in a queue in the database, and is taken by a
-- worker, which claims the fingerprint of its content before it sends the alert, so that no two
-- accounts send the same one. Calls to Telegram go through a circuit breaker, deleted messages are
-- still found in a short-lived buffer, mass posters are put on a permanent list, and the HTTP side
-- asks for the address of a client. The models, by file and source (paths from the repository's
-- root):
--   * Base: shared names; Boolean tests and lists over native numbers, Python dicts as association
--     lists in the order of insertion, the clock in microseconds, and moving windows over stamps.
--   * Fingerprints: the table alert_dedup and its methods (database.py: claim_alert_fingerprint,
--     release_alert_fingerprint, steal_stale_alert_fingerprint, cleanup_alert_fingerprints).
--   * Dedup: AlertDeduplicator (dedup.py): the memory, check_and_claim split at its await into
--     begin_claim and finish_claim, release, steal_if_stale, cleanup_expired. Dedup/Workers runs
--     the tasks of several processes, with restarts, as a sequence of steps.
--   * Sending: the claim that _send_alert (monitors.py) makes, with the steal for recovered events.
--   * Queue: the table processing_queue with its in-memory size (database.py: add_to_queue,
--     pop_from_queue, ack_queue_event, recover_stale_inflight, _dead_letter_row, purge_queue,
--     purge_stale_queue_rows), each method as a function on the state.
--   * Circuit: CircuitBreaker (monitors.py); a call is its check and, later, its end, so that calls
--     overlap in a sequence of steps.
--   * Capture: FastCaptureBuffer (monitors.py).
--   * Policy: the age gate and the length policy (unified_alerts/gate.py,
--     unified_alerts/filter_policy.py), with the counters of unified_alerts/stats.py.
--   * ClientIp: resolve_client_ip, its helpers, and the cache of trusted networks (security.py).
--   * Antispam: AntiSpamEngine (antispam.py); Antispam/Reasons has the conditions, Antispam/Observe
--     the entry for each message.
--   * Similarity: SimilarityGate (similarity.py), the block on reworded alerts.
--   * ReplyFix: ReplyFixer (reply_fix.py): the limits; ReplyFix/Run has run in two parts, before its
--     first await and after it, so that runs overlap; ReplyFix/Restart has snapshot_state and
--     restore_state.
--   * DeadLetters: DeadLetterQueue (monitors.py) and add_dead_letter (database.py).
--   * Pipeline: process_event_from_queue, _process_event_pipeline, _validate_event, _store_message,
--     _dlq_reprocess (monitors.py) and try_insert_message (database.py), with the retries that the
--     dead letter queue fires; what the other parts answer is an argument.
--   * BlockList: is_blocked_sender, block_sender, unblock_sender and their cache (database.py).
--   * RateLimit: AdaptiveRateLimiter (main.py), with its tokens in exact parts.
--   * NegativeMemory: the marks and the deferred flush of negative_memory.py (mark_dirty, flush_now,
--     _debounced_flush), with stores that change between the rounds of a flush.
--   * Contact: the helpers of contact_target.py, with those it takes from nav_resolver.py and
--     sender_resolver.py; Contact/Target has resolve_contact_target and validate_contact_target,
--     Contact/Pack build_alert_entity_pack.
--   * Card: unified_alerts/card.py: the tags that a text leaves open and the cut that closes them
--     (_find_unclosed_tags, _truncate_safe_html); Card/Repair has the anchors and buttons, and
--     Card/Validate has validate_and_repair_card.
--   * Trie: WeightedTrie, valid_word_boundary and the searches at boundaries (filter_engine.py).
--   * Bloom: OptimizedBloomFilter (filter_engine.py).
--   * Alerts: the receipts of alerts (database.py: add_alert, add_alert_immediate, alert_exists,
--     _flush as begin_flush and end_flush) and can_send_alert.
--   * Adaptive: AdaptiveWeights (adaptive.py), in millionths.
--   * Texts: the string methods of Python that Policy, ClientIp, Contact and Card use.
--
-- Loops are structural recursion over lists; only the digits of a number are printed on fuel, of
-- which its value and one are enough. Numbers that Python leaves unbounded are natural numbers; times, thresholds and scores are in fixed units
-- (microseconds, millionths), and where Python would go below zero the model says what it does.
-- Fingerprints, senders, chats and the names of fields are numbers. The database's statements are
-- atomic; where a theorem depends on whether one goes through, that is an argument. A method on the
-- table alert_dedup is one step, as the transaction of PostgreSQL makes a claim; on SQLite the
-- statements of a claim can interleave with those of other processes, which is not modelled.
--
-- Parameters, for code outside the repository: JSON and the database's order among equal rows
-- (Queue), the module ipaddress (ClientIp), the caches of cachetools and the ratio of rapidfuzz
-- (Antispam), the ratio of difflib (Similarity), the hash of a message and the LRUCache (Pipeline),
-- the digests of items (Bloom), `str.lower` and `str.isdigit` on all of Unicode (Contact, Card). Not
-- modelled: the Telegram client, the bot and the making of its cards, the decisions of the keyword
-- filter, the classifier, the resolution of senders, configuration,
-- and the HTTP server, which are text heuristics or I/O around these parts. The file monitors.py ends
-- inside _send_alert, at line 2758: what follows its claim, and whether a failed sending schedules a
-- retry by itself, can not be read and is not modelled.
pub mod Base
pub mod Fingerprints
pub mod Dedup
pub mod Sending
pub mod DeadLetters
pub mod NegativeMemory
pub mod Pipeline
pub mod Queue
pub mod RateLimit
pub mod ReplyFix
pub mod Card
pub mod Circuit
pub mod Contact
pub mod BlockList
pub mod Bloom
pub mod Capture
pub mod Texts
pub mod Trie
pub mod Policy
pub mod ClientIp
pub mod Adaptive
pub mod Alerts
pub mod Antispam
pub mod Similarity
