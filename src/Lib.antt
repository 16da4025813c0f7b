-- ===== src/Lib.antt =====
-- Agent United, the TypeScript clients: a server with channels and messages (apps/api, in Go) is used
-- by a desktop application (apps/desktop), a web application (apps/web) and an SDK
-- (packages/typescript). Each of the three keeps a WebSocket to the server alive, hands what arrives
-- on it to callbacks or to a React hook's state, and calls the server's HTTP API for the rest. This
-- library models that core of each of them.
--
-- Files and sources:
--   Prelude, Prelude/*   numbers, lists, association lists (localStorage, query parameters, headers),
--       JavaScript values (Js: what JSON.parse gives) and searches in a text, as all parts use them.
--   Desktop/Service      apps/desktop/src/services/WebSocketService.ts: `Service` is the object's
--       fields, `connect`, `on_open`, `on_message`, `on_error`, `on_close`, `timer_fired`,
--       `disconnect`, `send`, `on`, ... its methods and the handlers that connect installs.
--       Backoff (the delay of scheduleReconnect), Listeners (subscriptions), Lifecycle (histories of
--       calls and events) hold the proofs.
--   Desktop/Hook         apps/desktop/src/hooks/useWebSocket.ts: `Hook` is the hook's state and refs,
--       `message_created`, `message_updated`, `typing_start`, ... the handlers of the service's
--       events. Unread, Messages and Typing hold the proofs. Wiring has the effects that tie the hook
--       to the service: its subscriptions, their cleanup and the connection; Wiring/Subscribed is about
--       switching channels.
--   Sdk/Emitter          TypedEmitter of packages/typescript/src/realtime.ts, with Sets as objects of
--       a store, since an unsubscribe function keeps the Set that it was made with.
--   Sdk/Realtime         AgentUnitedRealtimeClient of the same file; Promises is about the promise of
--       connect, Closing about close events and disconnect.
--   Sdk/Url              normalizeUrl of realtime.ts and normalizeBaseUrl of
--       packages/typescript/src/rest.ts.
--   Sdk/Rest             the rest of rest.ts: `build_request` and `headers_of` are request up to
--       fetch, `handle_response` and `unwrap_response` what follows it, `channels_list`, ... the
--       resources. Headers and Responses hold the proofs.
--   Web/Socket           apps/web/src/services/webSocketService.ts; Retries is about reconnects,
--       Incoming about messages.
--   Web/Live             apps/web/src/hooks/useWebSocket.ts, and in Web/Live/Names getDisplayName of
--       apps/web/src/lib/displayName.ts; Listing is about the list of messages, Retries about
--       reconnects.
--   Web/Auth             apps/web/src/services/authService.ts; Expiry holds the proofs.
--   Web/Config           apps/web/src/services/apiConfig.ts; Laws and Storage hold the proofs.
--   Web/Startup          apps/web/src/App.tsx over Web/Config and Web/Auth, which share one
--       localStorage: the start, the routes and their guard. Session is about the token of the address,
--       Guards about visitors who are not signed in.
--   Web/Chat             apps/web/src/services/chatApi.ts; `api_request` and the headers are in
--       Web/Chat/Requests, the lists of people and the search in Web/Chat/People, the proofs in
--       Mapping and Errors.
--   Web/Mentions         apps/web/src/hooks/useMentions.tsx; Completing is about typing and selecting
--       a mention and about the arrow keys, Spans about parseMentions.
--   Web/Page             apps/web/src/pages/ChatPage.tsx: `Page` is the page's state, Web/Page/State
--       the loading of its lists, Web/Page the handlers, Web/Page/Names the names of authors,
--       Web/Page/Reply the indicator of an agent that does not reply (proofs in its Current and
--       Indicator), Web/Page/Sending handleSendMessage with the message input that calls it,
--       Web/Page/Tips the toasts with their timers and the tip of the guide (proofs in Tips/Timed).
--       Selection is about what is selected, Directory about the names.
--   Web/Composer         apps/web/src/components/chat/MessageInput.tsx, on top of Web/Mentions;
--       Sending is about what is sent, Menu about the menu behind a completed mention.
--   Web/Subdomain        apps/web/src/components/billing/SubdomainClaimSection.tsx; Checks is about late
--       answers.
--   Web/Webhooks         apps/web/src/components/agentFoundation/WebhooksTab.tsx, with the calls that
--       are under way; what the user does is in Pressing. Submitting is about the flag isSubmitting,
--       Deliveries and Ordered about whose deliveries are shown.
--   Web/Keys             apps/web/src/components/agentFoundation/ApiKeysTab.tsx, likewise, with Handling
--       and Targets.
--   Web/Forms            how a call of a service ends, and the calls that are under way.
--   Web/Entry            apps/web/src/pages/LoginPage.tsx and ForgotPasswordPage.tsx, in Invite
--       InviteAcceptPage.tsx and in Reset ResetPasswordPage.tsx; Entering and Confirming hold the
--       proofs.
--   Web/ChannelForm      apps/web/src/components/chat/CreateChannelModal.tsx, with its slugify in Slug;
--       Slugs is about the shape of a name, Choosing about what is submitted.
--   Web/Profile          apps/web/src/pages/UserSettingsPage.tsx, with its plans in Billing; Saving
--       holds proofs.
--   Web/Members          apps/web/src/components/chat/MemberListPanel.tsx; Order holds the proofs.
--   Web/NewDm            apps/web/src/components/chat/NewDMModal.tsx; Others holds the proofs.
--   Web/Tunnel           apps/web/src/pages/TunnelDashboardPage.tsx, on the slugify of Web/ChannelForm.
--   Web/Search           apps/web/src/components/chat/SearchResultsPanel.tsx; Results holds the proofs.
--   Web/Api              apps/web/src/services/api.ts; Sessions is about answers 401 and the limit on
--       files, Answers about the mapping of messages.
--   Web/Services         userApi.ts, integrationApi.ts, billingApi.ts and agentFoundationApi.ts of
--       apps/web/src/services, on the `request` of Web/Services/Requests; Accounts is authApi.ts and
--       dashboardApi.ts, Invites inviteApi.ts, Failures holds proofs.
--   Desktop/Shell        the notifications, the configuration, the links and the handlers of the window
--       of apps/desktop/src/main.ts; Notices and Links hold the proofs.
--       Menus has the menus of the application and of the dock.
--   Desktop/Native       apps/desktop/src/hooks/useNativeIntegration.ts over the handlers of
--       Desktop/Shell, which apps/desktop/src/preload.ts names.
--   Desktop/Settings     apps/desktop/src/screens/SettingsWindow.tsx; Saving is about what a save
--       writes, Copies about the copies of the configuration.
--   Desktop/App          apps/desktop/src/App.tsx over Desktop/Hook and Desktop/Native: the handlers,
--       with the menu actions and the keys in Keys and the notifications in Notifying. Places and
--       Navigating are about the order of the channels, Fresh and Shortcuts about what the listener
--       of keys has read.
--   Desktop/Palette      apps/desktop/src/components/CommandPalette.tsx; Matching is about what a query
--       finds, Moving about the keys.
--   Desktop/Accessibility  apps/desktop/src/utils/accessibility.ts: announcements (Announcing), tab
--       stops (TabStops), colours (Colours) and debounced announcements (Debouncing).
--   Each part's Tests runs it on concrete inputs.
--
-- How the parts interact: the desktop hook's handlers are the callbacks that the desktop service
-- calls, so that the payloads of Desktop/Service are the events of Desktop/Hook; the web hook opens a
-- socket of its own and falls back to `send_message` of Web/Chat, whose result is an argument here;
-- the message input feeds every change of its text to Web/Mentions and hands its keys to it first;
-- the desktop hook and the palette share the types of channels and users; the desktop application
-- selects channels of the hook, and asks the main process for notifications and badges by its copy of
-- the configuration;
-- the SDK's realtime client dials the address of Sdk/Url and emits to Sdk/Emitter.
--
-- A method of a class is a function from the state (and the arguments) to the state and a list of
-- effects: sockets dialled and closed, timers set and cleared, what is sent and which callbacks run.
-- The events of the browser (open, message, error, close, timer) are functions of the same kind, and
-- a history is a list of calls and events, run in that order; nothing is assumed of the order unless a
-- theorem says so. Exceptions and rejected promises are constructors of a result type or `none`.
--
-- What is not in these repository files is an argument of the definitions that use it: the WebSocket
-- constructor (`dial`) and readyState, JSON.parse, atob, encodeURIComponent, the URL parser,
-- localStorage (a list of keys and values, absent where it throws), fetch (a response or a failure)
-- and the tests and maps on characters behind trim, toLowerCase and toUpperCase. Where a theorem needs
-- something of them, it is a hypothesis, and a test gives a concrete function for which it holds.
--
-- Counters, delays and times are natural numbers without a bound, where JavaScript has doubles. No
-- definition runs on fuel; every loop of the sources goes over a list or a text and is recursion on
-- it.
--
-- Not modelled: React's rendering, batching of setters and the other pages and components, console
-- output, the windows of Electron and its updater, computations with fractions (luminance and contrast of
-- colours); the server, the iOS client and the Python SDK are in other languages.
pub mod Prelude
pub mod Desktop
pub mod Sdk
pub mod Web
