-- ===== src/Mp3/Title/Blocks.antt =====
-- src/format_mp3.c: the block that is made of a title.
