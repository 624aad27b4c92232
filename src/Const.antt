-- ===== src/Const.antt =====
-- custom_components/homekey_household/const.py: the child modules hold the words of the node's
-- contract that the models read, and the topics.
pub mod Words
pub mod Topics
