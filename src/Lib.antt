-- ===== src/Lib.antt =====
-- Funnel Manager: the logic that its services share (libs/fm_runtime) and the logic of the agents, the
-- jobs, the leads and the mail services.
--
-- A service that runs long work keeps a hub of job events (libs/fm_runtime/fm_runtime/jobs_producer.py)
-- whose stream the jobs service subscribes to; it applies every event to a row (jobs/app/store.py).
-- The events and their wire form are a contract of their own (job_events.py). The agents service runs
-- scheduled turns at the times of cron expressions (agents/app/cron.py). A service lets a
-- request pass where a role of its principal has a grant for it (grants.py). A service that guards an
-- expensive action asks for a confirmation, which a human gives; an agent needs an approval that the
-- agents service mints after a human has decided (confirmation.py, agents/app/approvals.py). The leads
-- service remembers which domains have no organization (leads/app/resolve_cache.py). The mail service
-- sends campaigns from a user's mailboxes, paced by a cap on what each domain sends in a day
-- (mail/app/campaigns.py).
--
--   Prelude          texts as code points, dictionaries in insertion order, lists and tests on the
--                    native numbers
--   Calendar         Python's datetime: microseconds since the year 1, naive or aware, with the
--                    calendar fields of a UTC instant
--   Runtime/Json     decoded JSON values, and Python's str, float and dict on them as a record
--   Runtime/Event    job_events.py: JobStatus, JobControlAction, JobEvent, to_dict and from_dict
--   Runtime/Producer jobs_producer.py: JobProducer; one function per stretch of a method between two
--                    suspensions (publish, _snapshot_active, subscribe, dispatch_control)
--   Runtime/Grants   grants.py: the grants of the roles and grants_allow; its child Policy has the tables of
--                    the exchange edges and verify_policy
--   Runtime/Confirmation  confirmation.py: the gate of an expensive action (require_confirmation) and the
--                    approvals of a human that let an agent pass it (make_human_approval,
--                    verify_human_approval)
--   Agents/Schedules agents/app/schedules.py: the table of schedules that several pods fire from, and the
--                    job events of the schedules
--   Agents/Turns     agents/app/session_manager.py: the buffers of the turns that a session streams
--   Agents/Approvals agents/app/approvals.py and models.py: the coordinator between a turn and a human's
--                    decision, the table of approvals, and the ledger of spent references
--   Mail             mail/app/campaigns.py, models.py and routers/mail.py: the rows (Rows), who has been
--                    contacted (Suppression), the lists that feed a campaign (Sources, Drafts), the cap
--                    (Quota), the pacer (Pacer, and one cycle in Tick), a send outside campaigns (Send),
--                    the start and end of a campaign (Lifecycle), and the service at work (Runs), over
--                    which Cap, Once, States and Changes state what holds
--   Leads/ResolveCache  leads/app/resolve_cache.py: the markers of domains without an organization
--   Jobs/Store       jobs/app/store.py and models.py: the row, the table and apply_event
--   Agents/Cron      agents/app/cron.py: parse_cron, _matches, cron_next, cron_min_interval_minutes
--
-- A child module named for a property (Bounds, Invariant, Delivery) holds the lemmas on the parent's
-- definitions, and Tests holds runs at fixed inputs and instances of the results.
--
-- Bounds. The search for the next fire visits a minute in each round; its rounds are 2103841, one more
-- than the minutes of the lookahead of 1461 days, so they end only where the source's loop ends. The
-- loop over a range has as many rounds as the range has numbers, which is enough at a positive step.
-- Numbers are not bounded, as in Python. A cycle of the campaign pacer takes its inputs (the time that
-- passes, and Gmail's answers) from a list; where the list ends, the process has stopped.
--
-- Not modelled: SQL sessions and failures of a commit, logging, the wording of messages, dates past the
-- year 9999, digits that are not ASCII, Python's limit on the digits of an int, and estimates that are
-- infinite or no number. The documents that grants.py checks are taken at their shapes. The clock,
-- `datetime.fromisoformat`, the conversions of JSON values, the logarithm of a float, SHA-256, HMAC,
-- base64, the text of JSON and the lower case of a text are parameters. Two cycles of the pacer, or a
-- cycle and a request, do not run at once: the mail service is a sequence of whole cycles and requests.
-- The archive of mailboxes and the text of a message are left out. A cancel or a re-arming of
-- schedules is one step, and the deletion of a session is left out.
pub mod Prelude
pub mod Calendar
pub mod Runtime
pub mod Jobs
pub mod Agents
pub mod Leads
pub mod Mail
