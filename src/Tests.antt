-- ===== src/Tests.antt =====
-- Runs of the model, and the properties at inputs where their hypotheses hold.
mod Verifier
mod Bundles
mod Verdicts
mod Judgements
mod Claims
mod Settlements
mod Comparisons
mod Trials
mod Partitions
mod Traces
mod Recordings
mod Challenges
mod Campaigns
mod Decisions
mod Heldout
