-- ===== src/Terminal.antt =====
-- src/components/terminal/TerminalView.tsx: one pane's terminal: its connection, and what is typed
-- into it.
pub mod Connection
pub mod Typing
pub mod Broadcast
