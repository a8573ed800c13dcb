-- ===== src/Lib.antt =====
-- Racemo is a terminal multiplexer: a window of tabs whose panes are terminals, with an editor, a git
-- view and a history of commands beside them. This library models the parts of its user interface, in
-- TypeScript under src/, that carry state or parse text, and proves what makes them correct.
--
-- The parts and how they meet. A session (a tab) holds a tree of panes; a pane has the id of its
-- terminal, and keyboard navigation walks the tree. The output of a terminal arrives in chunks that
-- are buffered until the terminal is mounted, acknowledged for flow control, and counted to mark
-- active panes. Output that ends in a tab in the background is notified. The shell's marks tell
-- when a command begins and ends, which feeds the history. The editor and the side panel keep rows
-- of tabs on shared helpers, and detect the language of a file. Conflict markers, diffs and secrets
-- are found in text by line or token. The history of a repository is drawn as a graph of lanes. The
-- store of remote connections follows the devices that come and go, and opens and closes the tabs
-- of their sessions. A line that is typed is completed from the history of commands, from
-- specifications of tools and from the directory.
--
--   Base       texts as lists of UTF-16 code units, dictionaries, array calls, their laws
--   Pane       src/types/session.ts, src/lib/paneTreeUtils.ts (findPtyId, navigatePane)
--   Tabs       src/stores/tabUtils.ts (closeTab, moveTab, findTabIndexByPath)
--   Editor     src/stores/editorStore.ts (openTab, reloadTabByPath, detectLanguage)
--   Panel      src/stores/panelEditorStore.ts, on Tabs and the file tabs of Editor
--   Conflict   src/lib/conflictParser.ts (parseConflicts, reconstructFile)
--   Diff       src/components/Sidebar/DiffViewer/parsing.ts (parseUnifiedLines, parseStructureHunks)
--   Pty        src/lib/ptyOutputBuffer.ts (the listener, queueAck, flushPtyOutputBuffer, trackActivity),
--              src/lib/terminalWrite.ts (writeToTerminal), on Secret
--   RemotePty  src/lib/remotePtyOutputBuffer.ts (flushRemotePtyOutputBuffer), on Secret
--   Session    src/stores/sessionStore.ts (addSession, removeSession, nextTabName), on Pane
--   Silence    src/lib/silenceDetector.ts (onPtyOutput, checkSilence), on Session
--   Secret     src/lib/secretDetector.ts (tokenize, maskSecretsWithPatterns, createSecretStreamMasker)
--   Unicode    src/lib/utils/unicode.ts (composeHangulSyllable, addJongseong, getDisplayWidth)
--   History    src/stores/historyStore.ts (loadFromFile, addLiveEntry, deleteEntry, toggleFavorite)
--   Tracker    src/lib/commandTracker.ts, src/stores/commandErrorStore.ts, on History
--   AiHistory  src/stores/aiHistoryStore.ts
--   GitOutput  src/stores/gitOutputStore.ts
--   Toast      src/stores/toastStore.ts
--   Graph      src/lib/gitGraph.ts (computeGraphRows, getMaxLanes)
--   Auth       src/stores/authStore.ts (startLogin, pollForToken), on Remote
--   Worktree   src/stores/worktreeStore.ts (refresh)
--   Completion src/lib/completionEngine.ts (tokenize, getCompletions, matchSpec), on History
--   Remote     src/stores/remoteStore.ts (connectToDevice, disconnect, setupRemoteListeners), on Session
--
-- How the code is modelled. A store is a record with the source's fields, an operation a function from
-- state to state with the source's name in another spelling; an operation that would put undefined
-- into an array returns none. Code that waits for the backend is cut in two there, and the answer is
-- an argument of the second part, so other operations can run in between. Timers are events, and what
-- leaves a module (writes, acknowledgements, saved commands) is kept in lists. Indices, sizes, times
-- and line numbers are natural numbers without bound, while the source has doubles, so results hold
-- as long as these stay below 2 ^ 53. Regular expressions that are written in the source are
-- functions over characters, but for the patterns of the secret detector, which are parameters, as
-- are toLowerCase, the decoder of bytes and the parsers of URLs and of layouts.
--
-- Fuel. The loops over escape sequences are given one round more than the text has code units, which
-- is enough since every round moves on by one at least. The search for a free tab number is given one
-- round more than there are numbers in use, and the digits of n are given n rounds. All other loops
-- are recursions over lists.
--
-- What is not modelled. The backend (src-tauri, in Rust) and the calls to it beyond their answers,
-- rendering and components, the terminal library, translations, input methods, the transport of
-- remote sessions, and the code for the state of git and for settings; of the modules above the
-- registries of terminals, the sound and the notices of the system, and the cache of compiled
-- patterns.
pub mod Base
pub mod AiHistory
pub mod Auth
pub mod Completion
pub mod Conflict
pub mod Diff
pub mod Editor
pub mod GitOutput
pub mod Graph
pub mod History
pub mod Pane
pub mod Panel
pub mod Pty
pub mod Remote
pub mod RemotePty
pub mod Secret
pub mod Session
pub mod Silence
pub mod Tabs
pub mod Toast
pub mod Tracker
pub mod Unicode
pub mod Worktree
