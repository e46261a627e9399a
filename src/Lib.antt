-- ===== src/Lib.antt =====
-- DubTitlerr turns the dub track of an anime episode into subtitles. generate.py transcribes the
-- audio with whisper, reflow.py cuts the words into cards and times them, the repair and glossary
-- passes correct the texts, mux.py puts the track into the file, and review_requests.py queues the
-- runs that a user asks for on the review page.
--
-- Modelled, each from the file named:
--
--   Reflow (reflow.py): words in, cards out. Reflow.Normalize is `_normalize`, `_clamp_to_segments`
--   and `_dejitter`; Reflow.Spans is `split_spans` and `_split_sentences`; Reflow.Pieces is
--   `_best_split_index`, `_split_overflow` and `segment_span`; Reflow.Glue is `_text`, `_dur` and
--   `_fits`; Reflow.Merge is `merge_runts`; Reflow.Cascade is `_cascade`; Reflow.Timing is
--   `time_cards`; Reflow.Wrap is `wrap_balance`; Reflow.Layout is `layout_metrics` and
--   `layout_faults`; Reflow.Run is `reflow`, which composes them.
--   A time is a whole number of ticks of 1/17000000 s: in these every constant of the file is exact,
--   so a test such as `x > MIN_DUR + EPS` is one on natural numbers. The program has floats.
--   Subtractions stop at 0; where the source can go below, a test stands in front or Prelude.Int is
--   used. An index into a list that is a card's own tail is that tail.
--   The recursion of `_split_overflow` is on a bound, the length of the piece, which is enough since
--   a cut leaves a word on either side: Reflow.Pieces.Ended has the recursion without the bound, as a
--   relation.
--
--   Requests (review_requests.py): the run requests. Requests.Lexer and Requests.Grammar are
--   `_validate_episode_re_grammar`: the loop over the pattern is a lexer, whose tokens are the tests
--   on `pattern[i:]` in their order, and a step on the state of the loop for each token.
--
--   Requests.Json and Requests.Body are `validate` and `derive_generate_only_re`, on JSON values.
--   Requests.Files is the directory of request files: a disk is the files of REQUESTS_DIR and of
--   `done` and `failed` below it, a file is its name, its JSON object and its time, and a path is one
--   of these directories and a name. Requests.Queue is `next_pending`, `mark_running`, `requeue`,
--   `finish` and `recover_running`, Requests.Listing is `create`, `list_requests`, `prune` and
--   `request_shows`. A temporary file that os.replace moves over a name is one write of that name.
--   Requests.Schedule is `validate_schedule`, `get_schedule`, `put_schedule` and `is_window_open`.
--   What a call raises is a value, and the disk is then as it was before the call; recover_running
--   returns the disk as far as it has come.
--
--   Ordering (ordering.py): `season_ep`, `episode_key` and `order_files`, the order in which the
--   files of a show are processed.
--
--   Hallucination (hallucination.py): `is_repetition`, `bad_source_window`, `drop_reason` and
--   `collapse_runs`, which find and drop what whisper invents.
--
--   AcquireCache (acquire_cache.py): `escalation_for` and `remember_escalation`, the answers of the
--   language model that glossary_acquire.py remembers.
--
--   Journal (adjudication_journal.py): the journal that both glossary stages keep of such answers,
--   with `lookup`, `record` (record_answer here) and `compact`, on the lines of its file. What fails of
--   reading, writing or replacing the file is an argument.
--
--   Auth (review_auth.py): who may do what on the review server. Auth.Accounts is `read_users`,
--   `create_user`, `update_user`, `delete_user`, `set_password` and `check_login`, each a function
--   on the accounts file that returns the file as it leaves it; Auth.Sessions is `SessionStore`, with
--   its rows in memory and its file; Auth.Key is the API key's file, its marker and what a process
--   remembers of it; Auth.Headers is `header`, `_cookie` and `_csrf_refusal`; Auth.Routes is the
--   table of routes, `authenticate`, `decide` and `role_for`; Auth.Login is the handlers of setup,
--   login, logout, accounts and passwords, and the import of an admin from the environment.
--   Auth.Throttle is `LoginThrottle` of review_server.py.
--   A disk says what fails of a locked write: the lock, or the write. Steps are the operations in any
--   order, with restarts; a step of two threads at once is one after the other. Times are whole
--   ticks, a million to the second.
--
--   Decisions (decisions.py): `record` (record_verdict here), `lookup`, `for_orig`, `corrected_text`
--   and `forced_text` on the entries of a show's store.
--
--   GlossaryDecision (glossary_decision.py): `adjudicate_verify` and `adjudicate_pair`, with the
--   counters and the breaker of a run; a call that fails in any way has no answer.
--
--   WatchQueue (watch_queue.py): `clean_title`, `fold`, `_dir_index`, `resolve_dir`, `match_dirs` and
--   `build`, on the titles that the two sources give.
--
-- Text holds the string operations of Python that the modules share, on texts as lists of code
-- points. Tests runs the definitions on concrete inputs.
--
-- Parameters: whether re.compile accepts a pattern; which paths are directories, and the real path of
-- a path; the block list of hallucinations; the clock, and the id and time that `create` makes from
-- it; the confidence that reflow writes on a card, which is made of float logarithms; the hash of a
-- password and its check, the digest of an id, urlsplit and unquote; str.lower and the categories of
-- Unicode for verdicts, and str.casefold for titles; the minute of the day in a time zone, and str of
-- a JSON value that is no text.
--
-- Not modelled: transcription, the language model and wiki calls, ffmpeg and the web server, which
-- are other programs; of review_requests.py the environment report and the command line; of
-- hallucination.py `repeat_loops` and `flag_reason`; of decisions.py the files and `promote`; of
-- glossary_decision.py the reading of its settings; file access and locks; generate.py, repair.py,
-- the other glossary*.py, mux.py, settings_*.py and the rest of the review server.
pub mod Prelude
pub mod Text
pub mod AcquireCache
pub mod Auth
pub mod Decisions
pub mod GlossaryDecision
pub mod Hallucination
pub mod Journal
pub mod Ordering
pub mod Reflow
pub mod Requests
pub mod WatchQueue
pub mod Tests
