-- ===== src/Lib.antt =====
-- dhcp-golib: a managed-lease DHCP client library in Go, in rings. wire/ turns bytes into messages and
-- back and keeps no state. proto/ decides: a machine steps on events and returns actions, with time and
-- entropy passed in. lease/ carries the actions out and owns the lease. runtime/ holds the sockets, the
-- clock, the timers and the recorders.
--
-- What is modelled, file by file:
--   Base            numbers, integers, lists, Boolean tests and the Result type that the rest shares.
--   Wire/Bytes      wire/codec.go: be16 to ube64.
--   Wire/Option     wire/option.go: the option map as an association list with each key once, Codes and
--                   Clone. Option/Map and Option/Order hold the laws of the map and of Codes.
--   Wire/Message    wire/message.go: Message, Type, SetType, Clone.
--   Wire/Codec      wire/codec.go: Encode, Decode, parseOptions. Codec/Parse and Codec/Grammar give the
--                   grammar of an option field, Codec/Instances what repeated instances of a code mean,
--                   Codec/Encode and Codec/Layout the octets Encode writes, Codec/RoundTrip and
--                   Codec/Outcome the theorems on the whole.
--   Wire/Values     wire/values.go and wire/option.go: Addr4, Addrs4, Uint32, Uint16, Text,
--                   VendorSpecific, and the options 80, 108 and 145.
--   Wire/UserClass  wire/option.go: option 77.
--   Wire/Vendor     wire/values.go: option 125.
--   Wire/Routes     wire/values.go: the options 121, 249 and 33.
--   Wire/Names      wire/values.go: DomainSearch, readName, encodeName, EncodeFQDN.
--   Wire/Arp        wire/arp.go: DecodeARP, EncodeARP, IsProbe.
--   Wire/HmacMd5    wire/hmacmd5.go: MD5 and HMAC-MD5.
--   Wire/Auth       wire/option_auth.go: the codec of option 90. Auth/Verify has forcerenewSpan and
--                   VerifyForcerenew over the octets of a message.
--   Proto/Time      proto/time.go: Instant, Duration, SecondsToDuration.
--   Proto/Backoff   proto/backoff.go: Delay, jitter, validate, Exhausted.
--   Proto/Retransmit
--                   proto/backoff6.go: Retransmit, with First, Next, Exhausted and their jitter.
--   Proto/Lease     proto/lease.go: leaseFromAck, Deadlines, Gateway, maskBits; Lease/Equal has Equal, and
--                   Lease/Notes whether there is a note for the journal.
--   Proto/Acd       proto/acd.go: the sub-machine of RFC 5227, with its rules, its schedule and its rate
--                   limit. An event is a constructor, a step returns the new state and its actions.
--   Proto/Slaac     proto/slaac6.go: the lifetimes of one address, and refresh, which applies the rules of
--                   RFC 4862 section 5.5.3 e to it. The table around it is left out.
--   Proto/Event     proto/state.go, proto/event.go, proto/action.go: the states, timers and reasons, an
--                   event and an action as a constructor each.
--   Proto/Params    proto/params.go and split of proto/backoff.go: Params, validate and the defaults.
--   Proto/Machine   proto/machine.go: the Machine record, New, and a Run, which is the machine in the
--                   course of a step with the actions it has appended, the newest first. A handler is a
--                   function on runs, `r ▷ f ▷ g` is one statement after another, and `stamp` gives an
--                   action its id. Children: Messages (base and the messages), Idle (going back
--                   to INIT, losing the lease, stopping), Sending, Acquire (starting, starting over,
--                   giving up), Renewing (with proto/machine_hostname.go), Holding (taking and checking a
--                   lease, with proto/machine_acd.go), Forcerenew (proto/machine_forcerenew.go), Answers (OFFER, ACK and NAK, with proto/rapidcommit.go
--                   and proto/ipv6only.go), Step (the handler of each state). The theorems stand in
--                   Promise (what a client sees of a run, part by part up to Promise/Runs), Endings,
--                   Replays, Requests, Exchange, Pacing, Declining and Creation.
--   Proto/Journal   proto/journal.go: NewJournalEntry, JournalEntry.Event and Replay of DHCPv4. The text
--                   of an action, and which octets are a router advertisement, are parameters.
--                   Journal/Trace has what a replay accepts, Journal/Recorded the replay of what a
--                   client recorded, Journal/Unread what an entry lacks.
--   Manager         lease/ratelimit.go: the token bucket of outgoing messages.
--   Runtime/PacketRing
--                   runtime/packetring.go: the packet ring.
--   Runtime/Timers  runtime/timers.go: the timer service. A method is an event, what it does under the
--                   mutex at once; a callback of time.AfterFunc is scheduled, started, past the lock, and
--                   on the channel, each by an event of its own, so a run is any interleaving.
--   Tests           concrete inputs to the theorems.
--
-- How the code is represented. A byte slice or array is a list of numbers, and nil is the empty list. A
-- netip.Addr is its zero value, four octets or sixteen. An error value is a constructor, without the
-- text around it. Instants and durations are integers, written without the wrap-around of int64, but in
-- Proto/Retransmit, where the sums wrap around; where a source checks for it the check is written out. A pointer or a map that the source copies is a value.
--
-- Loops. A loop over the octets of a slice is recursion on fuel, given the length of the slice, which is
-- enough because every round takes one octet at least; `stuck` is the result for no fuel. The name
-- reader has fuel for each octet and for each of the 128 compression pointers it may follow. The
-- doubling loop of the backoff is recursion on the count of retransmissions.
--
-- Concurrency. A type with a mutex is a state and its operations, each of which holds the lock to its
-- end. The timer service also has callbacks outside the lock: its runs are lists of events.
--
-- The machine takes the time and 64 bits of entropy with each event, as the source does; split derives
-- further values from them. applyACD calls acdReady, which takes a lease, which may start a check, which
-- applies the actions of its start: the model cuts this circle at the start, whose actions only set the
-- timer.
--
-- Not modelled: the DHCPv6 machine of proto/, the manager and the records of lease/, the DHCPv6 and ICMPv6
-- codecs, SHA-256, the journal of DHCPv6, and the sockets, the clock and the stores of runtime/, all for
-- their size or because they are system calls. Options.Int32, the constructors of Event, the texts of
-- errors and notes, and the String methods are left out.
pub mod Base
pub mod Wire
pub mod Proto
pub mod Manager
pub mod Runtime
pub mod Tests
