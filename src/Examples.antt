-- ===== src/Examples.antt =====
-- Runs of the operations at concrete inputs: the approvals, the timers of the scheduler, the stores,
-- the policies, the turns of a session and of a workflow, the tools, the
-- addresses, the anomalies, the threads, the gateway with the configuration, the prompts with the
-- replies and the plugins, and the records of the memory, the journal, the queue files and the idle
-- scheduler.
mod Grants
mod Timers
mod Stores
mod Policies
mod Turns
mod Tools
mod Hosts
mod Requests
mod Prompts
mod Records
mod Threads
