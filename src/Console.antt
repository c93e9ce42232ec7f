-- ===== src/Console.antt =====
-- src/apps/codex-bridge-client: the input of the console client. Of CommandParser.cpp, Words cuts a
-- line into words, Options reads the options of a thread, Parse reads a line; Stdin is
-- StdinReader.cpp, which makes lines of what is read.
pub mod Words
pub mod Options
pub mod Parse
pub mod Bounds
pub mod Typing
pub mod Choices
pub mod Choosing
pub mod HelpText
pub mod Threads
pub mod Commands
pub mod Stdin
pub mod Lines
