-- ===== src/Lib.antt =====
-- The message core of the coachman client (client/src/lib), a messenger that shows one feed
-- from several sources: the local store, history pages, live frames and the outbox; and the
-- parts beside the feed: media, shared lists, call invites, the history of the tab and the
-- scrolled feed.
--
-- Every source gives representations of messages, and one logical message may come as a
-- pending bubble, as the server's echo and as a history row. The modules below decide which
-- rows are one message, merge them, and keep the list of the feed.
--
-- - Common: tests on numbers, options and lists, JavaScript's `||` and `??`, a stable sort,
--   and maps as association lists, with their lemmas.
--
-- - Message: the rows (StoredMessage of storage.ts, RawMessage of api.ts). Message/Identity
--   and Message/Merge are message-identity.ts, Message/Unchanged and Message/Reconcile are
--   message-reconcile.ts, Message/Order is message-upsert.ts (order and highest sequence),
--   Message/Priority is message-priority.ts, and Message/Dedupe is message-dedupe.ts. The
--   loop of dedupeStoredMessages is a fold of one round over a state of three variables.
--
-- - History: chat-history-sync.ts, the cursor of the catch-up request and the paging of the
--   feed.
--
-- - Live: live-message-batch.ts, a state machine whose events are the calls of its methods
--   and the frames of the browser.
--
-- - WsPolicy: the reconnect delay, the URL and when the socket rests, of ws-policy.ts.
--
-- - Store: the object stores of messages, chats and outbox rows. IndexedDB and the idb
--   package are outside: Store.ObjectStore is the interface with the behaviour that the code
--   relies on, a section parameter of every function on the store, and Store/Table is an
--   instance in memory. Store/Messages is storage.ts, Store/Upsert is the upsert of
--   message-upsert.ts.
--
-- - Outbox: the send queue of outbox.ts. Outbox/Errors are the error classes, Outbox/State
--   the counters, reports and transfer progress (transfer-progress.ts), Outbox/Request the
--   requests to the server with the push preview of push-preview.ts, Outbox/Deliver one
--   delivery, Outbox/Send one attempt with its failures, Outbox/Lanes the two lanes and their
--   retries, Outbox/Enqueue new items and retry. Outbox/Safe is about what one attempt leaves
--   in the queue, Outbox/Lanes/Kept about a whole flush. The answers of the server are
--   parameters of each delivery.
--
-- - Unread: the read marks and unread counts of unread.ts. The key table of storage.ts is an
--   association list from key to number.
--
-- - Media: the downloads of media. Media/Hydrate is the queue of media-hydrate.ts with at
--   most two jobs in flight: a call, a request that settles and its two callbacks are the
--   steps of its machine, and what a download gives is a parameter. Media/Bytes is the test
--   of image bytes of media-bytes.ts.
--
-- - Lists: the shared list of a chat. Lists is the data and the order of the items,
--   Lists/Flush the pass over the queue of changes, Lists/Unread the unread flag, all of
--   list-sync.ts. The answers of the server and the encryption of texts are parameters of
--   each change.
--
-- - Calls: Calls/Invite is pending-call-invite.ts over sessionStorage and the cache of the
--   page, whose writes run later and in their order, as the code queues them; Calls/Report is
--   call-events.ts, the report of a call in the feed, which goes through the store and the
--   send queue; the flush that the report starts behind it is left out.
--
-- - Notified: the chats that pushes named, notified-chats.ts over one entry of localStorage.
--
-- - Routes: the addresses of routes.ts, and in Routes/Shell the history of the tab in
--   hooks/useAppRoute.ts. `window.history` is a list of entries with a place in it;
--   URLSearchParams and the URI encoding are the record UrlCodec with the laws the code
--   relies on.
--
-- - Viewport: the scroll position of the open chat. Viewport is the decisions of
--   chat-viewport.ts, Viewport/Scroller its measurement and visual anchor over a scroller
--   that lays rows out below each other, and Viewport/Feed the refs and the counter of
--   components/ChatView.tsx with updateMessages, the layout effect, user scrolls and the jump
--   to the end. Viewport/Feed/Changes is what changes the messages there: the effect for
--   incoming batches, a page of older messages and a deletion. It uses Message/Reconcile and
--   the quotes of Message/Replies (message-reply.ts). How messages are laid out as rows is a
--   parameter.
--
-- - Socket: the live connection of hooks/useWebSocket.ts. The state has the refs of the hook
--   and every socket that it made; what a socket, a timer, the page or the component does is
--   an event, and Socket/Events has its handler. A timer that is armed may fire at any time,
--   and the close of a socket may come late. Socket/Single is the invariant of the sockets,
--   Socket/Sound that of the timers, Socket/Beating the heartbeat and Socket/Stale the late
--   close of an older socket.
--
-- - Tests: runs of the model at concrete rows.
--
-- Optional fields are options; a missing field and `undefined` are both `none`. Times,
-- sequence numbers and counters are natural numbers; the program never makes them negative.
-- JavaScript's sort is stable and is modelled by insertion, which is the result of every
-- stable sort if the comparison is a consistent order; `localeCompare` depends on the locale
-- of the device and is a parameter. Loops are recursion on the list, so no fuel is needed;
-- the loop of flushLaneQueue has a guard of 40 rounds in the program, which is the bound of
-- its model. Operations of the store succeed and run one after another.
--
-- Not modelled: faults and timeouts of the store, the promise chains that keep two flushes of
-- one lane apart, the image cache, encryption, HTTP requests, failing sessionStorage and
-- localStorage, events in the feed about lists, late media in the scrolled feed, video calls,
-- `notify` and the retries of `sendCall` in useWebSocket.ts, other React components and
-- hooks, the service worker, the Android shell and the server.
pub mod Common
pub mod Message
pub mod Calls
pub mod History
pub mod Lists
pub mod Live
pub mod Media
pub mod Notified
pub mod Outbox
pub mod Routes
pub mod Socket
pub mod Store
pub mod Unread
pub mod Viewport
pub mod WsPolicy
pub mod Tests
