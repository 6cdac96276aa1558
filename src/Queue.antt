-- ===== src/Queue.antt =====
-- src/api_queue.c: packets that netfilter queues for the user's callbacks. `Handlers` holds the
-- functions that decide one packet, `Threads` the loops that receive them, `Register` the functions
-- of the API.
pub mod Handlers
pub mod Threads
pub mod Register
