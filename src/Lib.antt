-- ===== src/Lib.antt =====
-- ConnectHub's client: the stores and the library behind its window.
--
-- ConnectHub keeps a user's servers and opens terminals and file browsers on them. This library
-- models the client's own logic, the TypeScript of src/: what the window shows and what the backend
-- answers are parameters.
--
-- The parts, and where they are modelled:
-- - src/lib/tauri-bridge/ (types.ts, ai.ts, snippets.ts): Bridge.antt, the records that cross to the
--   backend, with the source's field names. What a call comes back with is a `Response`, a value or
--   an error.
-- - src/lib/paneTree.ts: PaneTree.antt, a terminal tab's split layout, with PaneTree/Layout.antt for
--   `computeLayout` and PaneTree/Saved.antt for `serializeLayout` and `deserializeLayout`. The other
--   files of PaneTree/ hold lemmas: Leaves, Closing, Splitting, Resizing, Layout/Identity,
--   Layout/Sizes, Saved/RoundTrip, Saved/Fresh.
-- - src/state/sessionsStore.ts: Sessions.antt, Sessions/Panes.antt (`splitPane`, `closePane`,
--   `setLayout`, `resizePaneSplit`) and Sessions/Reorder.antt. Sessions/Reach.antt has the actions as
--   a step relation; the invariant is in Sessions/Invariant.antt and below.
-- - src/state/aiStore.ts: Assistant.antt and Assistant/Actions.antt. An action is cut at its awaits:
--   it returns the new state and the call it waits for (`Task`), and the rest is a function of the
--   answer (`after_chat`, `after_check`, `after_write`, `after_vpn`, `after_exec`).
--   Assistant/Machine.antt runs any number of conversations, the calls answered in any order,
--   and with the panel's Clear (src/components/panels/AiAssistantDrawer.tsx), which may fall while a
--   call is awaited: Assistant/Machine/Cleared.antt is what follows then.
-- - src/state/vpnStore.ts: Vpn.antt, with reloads that overlap in Vpn/Refreshing.antt. `requestId` is
--   a field of the state. A call of the backend that fails throws, and the rest then does not run.
--   Vpn/Gate.antt is `ensureVpnUp`, cut at the calls of `connect` and at the sleeps between them;
--   Vpn/Mutations.antt the changes of profiles.
-- - src/state/settingsStore.ts: Settings.antt, where the setters and toggles are `act`, and the merge
--   of persisted settings `merge`.
-- - src/state/commandHistoryStore.ts: CommandHistory.antt, `record` (here `record_run`) and
--   `setRemoteTopUsed`; CommandHistory/Ranking.antt, `parseRemoteHistory` and `rankRemoteHistory`.
-- - src/state/hostsStore.ts: Hosts.antt, `loadAll` and `reorderGroups`; Hosts/Mutations.antt, the
--   other changes with their load. The backend and its calls are a parameter.
-- - src/state/snippetsStore.ts: Snippets.antt; src/state/tagsStore.ts, workspacesStore.ts: Tags.antt.
--   Reloading.antt is the interface of a store whose loads are numbered, which Hosts/Loads.antt and
--   Snippets/Loads.antt fill, and Reloading/Settled.antt runs changes and loads in any order.
-- - src/components/terminal/TerminalView.tsx: Terminal/Connection.antt (`handleDisconnect`,
--   `connectSession`, the clean-up; timers are numbers, and `begun` is a mounted terminal),
--   Terminal/Typing.antt (the lines recorded from what is typed, on code units) and
--   Terminal/Broadcast.antt (the sessions that are written to).
-- - src/components/sidebar/HostTree.tsx: HostTree.antt, searching and collapsing; `groupHasMatch` takes
--   the number of levels that it may go down.
-- - src/components/sftp/SftpBrowser.tsx: Sftp.antt, paths, the listing of one side, and connecting.
-- - src/lib/friendlyError.ts: FriendlyError.antt, the regular expressions as patterns.
-- - src/pages/AppShell.tsx: Shell.antt (the window's state), Shell/Tabs.antt (connecting through the
--   VPN's gate, opening, splitting and closing tabs and panes), Shell/Panels.antt (the side panels,
--   with `isInlineFormModal` of src/components/panels/InlineFormPanel.tsx) and Shell/Workspaces.antt
--   (saving and opening a workspace; JSON is a parameter) and Shell/Groups.antt (the order a dropped
--   group gets, with src/lib/groupTree.ts). Shell/Tabs/Views.antt has the handlers as a
--   step relation.
--
-- The sessions store uses the pane tree; the VPN store asks the sessions store which tabs are open;
-- the assistant asks the sessions store for a live terminal (`findLiveSessionId`, the argument
-- `live`) and the VPN store for its gate (`VpnGateResult`). The window's handlers use all of them.
--
-- Base.antt has the shared helpers, Number.antt the numbers that need not be whole (an IEEE double is
-- a parameter, with the documented laws of comparison and rounding, and NaN not `<=` itself), and
-- Uuid.antt the identifiers that `crypto.randomUUID` draws: a parameter, the k-th identifier drawn,
-- with a counter of those drawn in each state. Tests.antt has concrete inputs.
--
-- An object used as a map is a function from keys to an option. A loop is over a list or a tree.
-- The gate's polling is a function of the answers that come, of which 64 are enough, and
-- `groupHasMatch` needs one level more than the group has below it. The order in which the user
-- acts, timers fire and calls are answered is a sequence of steps.
--
-- Not modelled: rendering; the backend's own code (src-tauri/); `topUsedCommands` of
-- src/state/commandHistoryStore.ts; the terminal emulator, selection and search of TerminalView.tsx;
-- the palette and CSV files of AppShell.tsx; and the event handlers of the other
-- components.
pub mod Base
pub mod Number
pub mod Bridge
pub mod Uuid
pub mod PaneTree
pub mod Sessions
pub mod Assistant
pub mod Vpn
pub mod Settings
pub mod CommandHistory
pub mod Hosts
pub mod Reloading
pub mod HostTree
pub mod Sftp
pub mod Snippets
pub mod Tags
pub mod Terminal
pub mod FriendlyError
pub mod Shell
pub mod Tests
