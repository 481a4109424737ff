-- ===== src/Tests.antt =====
-- Runs of the model at concrete inputs, and each result applied at one.
mod Artwork
mod Catalog
mod Curation
mod Flight
mod Library
mod Pages
mod Player
mod PlayerBar
mod QuickAdd
mod Services
mod Session
mod Ui
mod Users
mod Settings
mod Entry
mod Clock
