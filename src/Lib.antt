-- ===== src/Lib.antt =====
-- A verification library for north-standard, the evidence verifier for GPU service contracts.
--
-- A bundle of evidence records about one service session is appraised against a compute contract.
-- Four claims (session binding, runtime, availability, performance) are judged each on its own
-- records; the integrity of the bundle is checked; and a decision (ACCEPT, REJECT or INCONCLUSIVE) is
-- drawn from the mandatory claims. The verdict is committed to by a settlement payload, and turned
-- into an unsigned authorization with EIP-712 typed data, which a contract on a chain consumes.
--
-- The parts, and the code that they model:
--   Models, Models.Enums  src/north_standard/models.py: the frozen dataclasses are records, their
--                         `__post_init__` a check that returns the value or an error, `to_dict` and
--                         the hashes functions. Models.Reading finds an enumeration member by value.
--   Policy                src/north_standard/policy.py
--   Value                 the values of `Any` in payloads and serialized objects
--   Canonical             src/north_standard/canonical.py
--   Verifier              src/north_standard/verifier.py: `verify` and `appraise` (the dictionary
--                         `claims`), with a module per claim: Binding, Runtime, Performance and
--                         Availability; Integrity for `_bundle_integrity_errors`, and Outcome for the
--                         decision. Their child modules, with Verdict, Reasons and Acceptance, hold
--                         the theorems.
--   Commitment            src/north_standard/commitment.py
--   Authorization         src/north_standard/authorization.py; Authorization.Hex has its texts
--   Simulator             src/north_standard/simulator.py
--   Evaluators            src/north_standard/evaluators.py: the baselines and the ablations, with
--                         Matrix for the comparisons and their metrics
--   Experiments           src/north_standard/experiments.py: the synthetic cases, with Trials for
--                         `run_trial` and `run_matrix`, Summary for `summarize`, and Table for both
--                         together. `Noise` stands for the float
--                         arithmetic of the noisy scores and for `Random(seed).random()`; the time
--                         that a trial took and the quotient of two integers are arguments.
--   Recorded              src/north_standard/recorded_real.py: Trace for `validate_trace`, Calibration,
--                         Contract and Bundle for the calibration, the contract and the bundle that
--                         are made of traces; Recorded.Protocol is recorded_protocol.py beside it.
--                         The records of a bundle are numbered after all their entries are made,
--                         and a set is the list of its members without repetitions.
--   Challenges            src/north_standard/challenge_experiment.py: the schedules, with Evidence for
--                         the generated bundle, Trial for the trials and Summary for their rates;
--                         Challenges.Sensitivity is challenge_sensitivity.py beside it
--   Campaign              src/north_standard/recorded_campaign.py: the manifest, with Trial for the
--                         trials and Summary; `load_json` and `load_traces` of recorded_real.py stand here
--   Partition             src/north_standard/evaluation_protocol.py: the seeds of the splits, with
--                         Wilson for the intervals and Heldout for the trials and their summary
--   Base                  what the modules share; Base.Raise is the type of results
--   Samples, Tests        concrete parameters, runs and instances
--
-- Conventions of the model. A call that may raise returns `ok` or `err` with the exception. Python's
-- integers are ℤ over the native numbers, without bound. Floats are an abstract type with the record
-- `Float` of the operations that the code applies, so the theorems hold of every such arithmetic, NaN
-- included; the one thing assumed of it, by Experiments.Plain, is that the simulator's scores are not
-- below its floor. `json.dumps` and `hashlib.sha256` are the record `Hashing`,
-- and the one thing assumed of them, where a theorem says so, is that a digest is 64 hexadecimal
-- digits. The keys of dictionaries are texts; a dictionary is the list of its items in insertion order.
-- The sets of `_bundle_integrity_errors` are lists, and the dictionary of sets among them a list of
-- pairs of a key and a member, as the code reads it by membership alone. `str.lower`
-- is modelled on the texts it is called on, "0x" and hexadecimal digits.
-- The further float operations of a part, and the calls of the random generator, of `int` on floats and
-- texts, of the clock and of the file system, are the records `Noise`, `Measure`, `Scheduler`, `Root`,
-- `Whole` and `Files` or arguments. That a digest has 64 lowercase hexadecimal digits, and that the medians of
-- a calibration are finite and positive, is assumed where a theorem says so.
-- Recursion is structural, but for the digits of a number (Base.Decimal), where the fuel n + 1 is
-- enough as each step divides n by ten.
--
-- Not modelled: command lines, printing and the writing of files, with the dictionaries that are made
-- for it; the baseline report; the C++ port of the verifier, the CUDA probe and the Solidity contract.
pub mod Base
pub mod Value
pub mod Canonical
pub mod Models
pub mod Policy
pub mod Verifier
pub mod Simulator
pub mod Samples
pub mod Tests
pub mod Commitment
pub mod Authorization
pub mod Evaluators
pub mod Experiments
pub mod Partition
pub mod Recorded
pub mod Challenges
pub mod Campaign
