-- ===== src/Commands.antt =====
-- The commands of swpt_debtors/cli.py but `verify_shard_content`, which is in Shard. What a command
-- makes RabbitMQ, the clock and the operating system do is a list of requests, in their order; what
-- they answer is an argument.
pub mod Options
pub mod Broker
pub mod Queues
pub mod Emptied
pub mod Workers
pub mod Flushing
pub mod Periods
